-- ===== src/Request/Message.antt =====
-- src/request.c: the body of a request as the text of an HTTP message.
use web_bench.Prelude.{
  zero, suc, ◌⊎◌, ℕ, ◌-◌, ◌≤◌, ◌<◌, ◌≡◌, ◌∙◌, ap, refl, Bool, true, false, not, ◌&&◌, List, [], ◌∷◌,
  ◌++◌, ◌==◌, if◌then◌else◌, arith, ltb, take, take_all, append_assoc, append-nil, some, Bool-cases,
  inl, inr, sym,
}
use web_bench.Prelude.Int.{pos, two_31}
use web_bench.Prelude.Digits.{print_int, print_nat, length-print_nat}
use web_bench.CString.{codes, snprintf}
use web_bench.CString.Laws.{strncat_sized-take}
use web_bench.Arguments.{Arguments, method_trace, host_name_len}
use web_bench.Request.{
  request_body_size, has_proxy, method_text, append, append_if, crlf, has_headers, append_version,
  port_text, append_host, append_reload, append_rest, fill_request,
}

-- A header line.
pub record Field : Type 0 where
  pub name : List ℕ
  pub value : List ℕ

pub record Message : Type 0 where
  pub method : List ℕ
  pub target : List ℕ
  pub version : ℕ
  pub fields : List Field

unfoldable pub print_field : Field → List ℕ
print_field f = f.name ++ (codes ": " ++ (f.value ++ crlf))

unfoldable pub print_fields : List Field → List ℕ
print_fields [] = []
print_fields (f ∷ fs) = print_field f ++ print_fields fs

-- Version 0.9 has neither a version nor a header, and nothing ends its line.
unfoldable pub print_message : Message → List ℕ
print_message m =
    m.method
    ++ (codes " "
        ++ (m.target
            ++ (if m.version == 0
                then []
                else (if m.version == 1 then codes " HTTP/1.0\r\n" else codes " HTTP/1.1\r\n")
                  ++ (print_fields m.fields ++ crlf))))

abbrev pub method_name : ℕ → List ℕ
method_name m =
    if m == 0
    then codes "GET"
    else if m == 1
    then codes "HEAD"
    else if m == 2
    then codes "OPTIONS"
    else codes "TRACE"

abbrev pub field_if : Bool → List ℕ → List ℕ → List Field → List Field
field_if test name value rest = if test then record { name = name; value = value } ∷ rest else rest

-- The header lines of a request, in order.
unfoldable pub fields_of : Arguments → List Field
fields_of args =
    let proxied = has_proxy args in
    let reload = proxied && not (args.force_reload == 0) in
    let modern = args.http10 == 2 in
    record { name = codes "User-Agent"; value = codes "WebBench 2" }
    ∷ field_if (not proxied) (codes "Host")
        (args.target_host ++ (b':' ∷ print_int args.target_port))
        (field_if (reload && not modern) (codes "Pragma") (codes "no-cache") (
          field_if (reload && modern) (codes "Cache-Control") (codes "no-cache")
            (field_if modern (codes "Connection") (codes "close") [])))

unfoldable pub message_of : Arguments → Message
message_of args = record {
  method = method_name args.method;
  target = if has_proxy args then args.url else codes "/";
  version = args.http10;
  fields = fields_of args;
}

-- A body that has taken the text `s` holds what fits of it.
abbrev pub room : ℕ
room = request_body_size - 1

append-take : (s t : List ℕ) → append (take room s) t ≡ take room (s ++ t)
append-take s t = strncat_sized-take room s t

append_if-take :
    (b : Bool) (s t : List ℕ) → append_if b (take room s) t ≡ take room (s ++ (if b then t else []))
append_if-take true s t = append-take s t
append_if-take false s t = ap (take room) (sym (append-nil s))

-- `f` adds the text `x` to a body.
record Adds (f : List ℕ → List ℕ) (x : List ℕ) : Type 0 where
  adds : (s : List ℕ) → f (take room s) ≡ take room (s ++ x)

then_add :
    {f g : List ℕ → List ℕ} {x y : List ℕ} → Adds f x → Adds g y → Adds (λ b. g (f b)) (x ++ y)
then_add {f} {g} {x} {y} hf hg = record {
  adds = λ s. ap g (hf.adds s) ∙ hg.adds (s ++ x) ∙ ap (take room) (append_assoc s x y);
}

append-Adds : (t : List ℕ) → Adds (λ b. append b t) t
append-Adds t = record { adds = λ s. append-take s t }

append_if-Adds : (b : Bool) (t : List ℕ) → Adds (λ s. append_if b s t) (if b then t else [])
append_if-Adds b t = record { adds = λ s. append_if-take b s t }

-- What each step adds.
abbrev pub version_text : Arguments → List ℕ
version_text args =
    if args.http10 == 1
    then codes " HTTP/1.0\r\n"
    else if args.http10 == 2
    then codes " HTTP/1.1\r\n"
    else []

abbrev pub host_text : Arguments → List ℕ
host_text args =
    if not (has_proxy args) && has_headers args
    then codes "Host: " ++ (args.target_host ++ (port_text args ++ crlf))
    else []

abbrev pub reload_text : Arguments → List ℕ
reload_text args =
    if has_proxy args && not (args.force_reload == 0)
    then (if args.http10 == 1
        then codes "Pragma: no-cache\r\n"
        else if args.http10 == 2
        then codes "Cache-Control: no-cache\r\n"
        else [])
    else []

abbrev pub rest_text : Arguments → List ℕ
rest_text args =
    (if has_proxy args then args.url else codes "/")
    ++ (version_text args
        ++ ((if ltb 0 args.http10 then codes "User-Agent: WebBench 2\r\n" else [])
            ++ (host_text args
                ++ (reload_text args
                    ++ ((if args.http10 == 2 then codes "Connection: close\r\n" else [])
                        ++ (if has_headers args then crlf else []))))))

append_version-take :
    (args : Arguments) (s : List ℕ)
    → append_version args (take room s) ≡ take room (s ++ version_text args)
unfolding append_version
append_version-take args s = elim (Bool-cases (args.http10 == 1)) [
  | inl e ↦ rw e (append-take s (codes " HTTP/1.0\r\n"))
  | inr e ↦ rw e (append_if-take (args.http10 == 2) s (codes " HTTP/1.1\r\n"))
]

append_host-take :
    (args : Arguments) (s : List ℕ)
    → append_host args (take room s) ≡ take room (s ++ host_text args)
unfolding append_host
append_host-take args s = elim (Bool-cases (not (has_proxy args) && has_headers args)) [
  | inl e ↦ rw e (
      rw
        (
          append-take s (codes "Host: "),
          append-take (s ++ codes "Host: ") args.target_host,
          append-take ((s ++ codes "Host: ") ++ args.target_host) (port_text args),
          append-take (((s ++ codes "Host: ") ++ args.target_host) ++ port_text args) crlf,
        )
        (simp append_assoc))
  | inr e ↦ rw e (ap (take room) (sym (append-nil s)))
]

append_reload-take :
    (args : Arguments) (s : List ℕ)
    → append_reload args (take room s) ≡ take room (s ++ reload_text args)
unfolding append_reload
append_reload-take args s = elim (Bool-cases (has_proxy args && not (args.force_reload == 0))) [
  | inl e ↦ rw e (elim (Bool-cases (args.http10 == 1)) [
    | inl f ↦ rw f (append-take s (codes "Pragma: no-cache\r\n"))
    | inr f ↦ rw f (append_if-take (args.http10 == 2) s (codes "Cache-Control: no-cache\r\n"))
  ])
  | inr e ↦ rw e (ap (take room) (sym (append-nil s)))
]

append_version-Adds : (args : Arguments) → Adds (append_version args) (version_text args)
append_version-Adds args = record { adds = append_version-take args }

append_host-Adds : (args : Arguments) → Adds (append_host args) (host_text args)
append_host-Adds args = record { adds = append_host-take args }

append_reload-Adds : (args : Arguments) → Adds (append_reload args) (reload_text args)
append_reload-Adds args = record { adds = append_reload-take args }

append_rest-take :
    (args : Arguments) (m : List ℕ)
    → append_rest args (take room m) ≡ take room (m ++ rest_text args)
unfolding append_rest
append_rest-take args m =
    let target = append-Adds (if has_proxy args then args.url else codes "/") in
    let line = then_add target (append_version-Adds args) in
    let agent =
      then_add line (append_if-Adds (ltb 0 args.http10) (codes "User-Agent: WebBench 2\r\n")) in
    let host = then_add agent (append_host-Adds args) in
    let reload = then_add host (append_reload-Adds args) in
    let close =
      then_add reload (append_if-Adds (args.http10 == 2) (codes "Connection: close\r\n")) in
    let all = then_add close (append_if-Adds (has_headers args) crlf) in
    all.adds m ∙ ap (λ t. take room (m ++ t)) (simp append_assoc)

pub method_text-name :
    (m : ℕ) → m ≤ method_trace → method_text m ≡ some (method_name m ++ codes " ")
unfolding method_text
method_text-name zero h = refl
method_text-name (suc zero) h = refl
method_text-name (suc (suc zero)) h = refl
method_text-name (suc (suc (suc zero))) h = refl
method_text-name (suc (suc (suc (suc m)))) h = absurd (omega arith)

-- The port of a URL is never negative, so it fits `port_str`.
pub port_text-print :
    (args : Arguments) (n : ℕ)
    → args.target_port ≡ pos n
    → n < two_31
    → port_text args ≡ b':' ∷ print_int args.target_port
unfolding snprintf print_int
port_text-print args n e h =
    rw e (ap (λ t. b':' ∷ t) (take_all 10 (print_nat n) (length-print_nat 9 n (omega arith))))

version_cases : (v : ℕ) → v ≤ 2 → (v ≡ 0) ⊎ ((v ≡ 1) ⊎ (v ≡ 2))
version_cases zero h = inl refl
version_cases (suc zero) h = inr (inl refl)
version_cases (suc (suc zero)) h = inr (inr refl)
version_cases (suc (suc (suc v))) h = absurd (omega arith)

module _ (args : Arguments) (port : port_text args ≡ b':' ∷ print_int args.target_port) where
  abbrev pub method : List ℕ
  method = method_name args.method

  -- With the version known, the steps and the message differ in brackets only.
  abbrev pub Same : Type 0
  Same = (method ++ codes " ") ++ rest_text args ≡ print_message (message_of args)

  text_0_9 : args.http10 ≡ 0 → Same
  unfolding print_message message_of
  text_0_9 v = rw v (elim (Bool-cases (has_proxy args)) [
    | inl p ↦ rw p (elim (Bool-cases (args.force_reload == 0)) [
      | inl r ↦ rw r (simp (append_assoc, append-nil))
      | inr r ↦ rw r (simp (append_assoc, append-nil))
    ])
    | inr p ↦ rw p (simp (append_assoc, append-nil))
  ])

  text_1_0 : args.http10 ≡ 1 → Same
  unfolding print_message message_of fields_of print_fields print_field
  text_1_0 v =
      rw (v, port)
        (elim (Bool-cases (has_proxy args)) [
          | inl p ↦ rw p (elim (Bool-cases (args.force_reload == 0)) [
            | inl r ↦ rw r (simp append_assoc)
            | inr r ↦ rw r (simp append_assoc)
          ])
          | inr p ↦ rw p (simp append_assoc)
        ])

  text_1_1 : args.http10 ≡ 2 → Same
  unfolding print_message message_of fields_of print_fields print_field
  text_1_1 v =
      rw (v, port)
        (elim (Bool-cases (has_proxy args)) [
          | inl p ↦ rw p (elim (Bool-cases (args.force_reload == 0)) [
            | inl r ↦ rw r (simp append_assoc)
            | inr r ↦ rw r (simp append_assoc)
          ])
          | inr p ↦ rw p (simp append_assoc)
        ])

  pub text-print : args.http10 ≤ 2 → Same
  text-print h = elim (version_cases args.http10 h) [
    | inl v ↦ text_0_9 v
    | inr (inl v) ↦ text_1_0 v
    | inr (inr v) ↦ text_1_1 v
  ]

  -- The whole body, as far as it fits.
  pub fill_request-take :
      args.http10 ≤ 2
      → args.method ≤ method_trace
      → fill_request args (method_text args.method) ≡ (
        pos 0,
        args,
        record {
          host = take (host_name_len - 1) args.target_host;
          body = take room (print_message (message_of args));
        },
      )
  unfolding fill_request snprintf
  fill_request-take v m =
      rw (method_text-name args.method m, append_rest-take args (method ++ codes " "), text-print v)

-- ===== src/Arguments/Options/Run.antt =====
-- src/arguments.c: what holds of the arguments that a whole command line leaves.
use web_bench.CString.Laws.{length-snprintf, length-strncat_sized}
use web_bench.Prelude.{
  append-nil, subst, ℕ, suc, ◌-◌, ◌≤◌, ◌<◌, ◌≡◌, refl, ap, ◌∙◌, true, false, List, [], ltb, leb,
  ◌==◌, inl, inr, length, drop, arith, Outcome, done, exit, fault, ◌>>=◌, some, none, Option,
  take_all, Bool-cases, >>=-eq-done,
}
use web_bench.Prelude.Int.{ℤ, minus_one, is_nonneg}
use web_bench.CString.{codes, snprintf, strncat_sized, strncat, strncpy, read_string}
use web_bench.Arguments.{Arguments, host_name_len, max_url_len, method_trace, validate_arguments}
use web_bench.Arguments.Url.{
  behind_scheme, is_supported_url, ends_with_slash, set_protocol, set_target, host_and_port,
  host_only, parse_port, set_arguments_from_url, port_str_size,
}
use web_bench.Arguments.Options.{
  Parse, Opt, copy_url, finish, set_url, apply_options, set_arguments_values, exit_failure,
}

-- The settings that `set_arguments_from_url` leaves alone.
record Kept (a b : Arguments) : Type 0 where
  url : b.url ≡ a.url
  method : b.method ≡ a.method

parse_port-Kept : (errno : ℕ) (a : Arguments) (s : List ℕ) → Kept a (parse_port errno a s).1
unfolding parse_port
parse_port-Kept errno a s = ground arith

-- What a call of it has left when it returns.
data Leaves (a : Arguments) : Outcome (ℤ × Arguments) → Type 0 where
  returned : {r : ℤ × Arguments} → Kept a r.1 → Leaves a (done r)
  exited : {n : ℕ} → Leaves a (exit n)
  faulted : Leaves a fault

Leaves-bind :
    {B : Type 0} (a : Arguments) (m : Outcome B) (f : B → Outcome (ℤ × Arguments))
    → ((b : B) → Leaves a (f b))
    → Leaves a (m >>= f)
Leaves-bind a (done b) f h = h b
Leaves-bind a (exit n) f h = exited
Leaves-bind a fault f h = faulted

Kept-through : {a b c : Arguments} → Kept a b → Kept b c → Kept a c
Kept-through k l = record { url = l.url ∙ k.url; method = l.method ∙ k.method }

Kept-refl : (a : Arguments) → Kept a a
Kept-refl a = record { url = refl; method = refl }

host_only-Leaves : (a : Arguments) (rest : List ℕ) (slash : ℕ) → Leaves a (host_only a rest slash)
unfolding host_only
host_only-Leaves a rest slash =
    Leaves-bind a _ _ (λ host. returned (record { url = refl; method = refl }))

host_and_port-Leaves :
    (errno : ℕ) (a : Arguments) (rest : List ℕ) (colon slash : ℕ)
    → Leaves a (host_and_port errno a rest colon slash)
unfolding host_and_port
host_and_port-Leaves errno a rest colon slash =
    Leaves-bind a (strncpy host_name_len a.target_host rest colon) _ λ host.
      Leaves-bind a (strncpy port_str_size [] (drop (suc colon) rest) (slash - colon - 1)) _ λ port.
        Leaves-bind a (read_string port_str_size port) _ λ port_str.
          returned {r = parse_port errno (record a { target_host = host }) port_str} (
            Kept-through {a = a} {b = record a { target_host = host }}
              (record { url = refl; method = refl })
              (parse_port-Kept errno (record a { target_host = host }) port_str))

set_target-Leaves :
    (errno : ℕ) (a : Arguments) (rest : List ℕ) (colon slash : Option ℕ)
    → Leaves a (set_target errno a rest colon slash)
unfolding set_target
set_target-Leaves errno a rest (some colon) (some slash) = elim (Bool-cases (ltb colon slash)) [
  | inl h ↦ rw h (host_and_port-Leaves errno a rest colon slash)
  | inr h ↦ rw h (returned (Kept-refl a))
]
set_target-Leaves errno a rest (some colon) none = returned (Kept-refl a)
set_target-Leaves errno a rest none (some slash) = host_only-Leaves a rest slash
set_target-Leaves errno a rest none none = faulted

Leaves-through :
    {a b : Arguments} {m : Outcome (ℤ × Arguments)} → Kept a b → Leaves b m → Leaves a m
Leaves-through k (returned l) = returned (Kept-through k l)
Leaves-through k exited = exited
Leaves-through k faulted = faulted

set_protocol-Kept : (a : Arguments) → Kept a (set_protocol a)
unfolding set_protocol
set_protocol-Kept a = ground arith

behind_scheme-Leaves :
    (errno : ℕ) (a : Arguments) (i : Option ℕ) → Leaves a (behind_scheme errno a i)
unfolding behind_scheme
behind_scheme-Leaves errno a none = faulted
behind_scheme-Leaves errno a (some i) = set_target-Leaves errno a _ _ _

set_arguments_from_url-Leaves :
    (errno : ℕ) (a : Arguments) → Leaves a (set_arguments_from_url errno a)
unfolding set_arguments_from_url
set_arguments_from_url-Leaves errno a = elim (Bool-cases (length a.url == 0)) [
  | inl h ↦ rw h (returned (Kept-refl a))
  | inr h ↦ rw h (elim (Bool-cases (ends_with_slash a.url)) [
    | inl e ↦
        rw e (Leaves-through (set_protocol-Kept a) (behind_scheme-Leaves errno (set_protocol a) _))
    | inr e ↦ rw e (returned (Kept-refl a))
  ])
]

-- A URL that does not end with a slash is refused.
set_arguments_from_url-no_slash :
    (errno : ℕ) (a : Arguments)
    → ends_with_slash a.url ≡ false
    → set_arguments_from_url errno a ≡ done (minus_one, a)
unfolding set_arguments_from_url
set_arguments_from_url-no_slash errno a h = ground arith

record Finished (r : ℤ × Arguments) (b : Arguments) : Type 0 where
  returns : is_nonneg r.0 ≡ true
  same : b ≡ r.1
  valid : r.1.method ≤ method_trace

finish-done : (ret : ℤ) (a b : Arguments) → finish (ret, a) ≡ done b → Finished (ret, a) b
unfolding finish validate_arguments
finish-done ret a b h = ground arith

length-copy_url : (arg : List ℕ) → length (copy_url arg) < max_url_len
unfolding copy_url
length-copy_url arg =
    let copied = length-snprintf max_url_len arg (omega arith) in
    let longer = length-strncat_sized max_url_len (snprintf max_url_len arg) (codes "/") copied in
    ground arith

Leaves-done : {a : Arguments} {r : ℤ × Arguments} → Leaves a (done r) → Kept a r.1
Leaves-done (returned k) = k

-- What holds of a URL argument that is accepted, with the arguments `b` that it leaves.
pub record Accepted (arg : List ℕ) (b : Arguments) : Type 0 where
  pub short : length arg < max_url_len
  pub supported : is_supported_url arg ≡ true
  pub copied : b.url ≡ copy_url arg
  pub fits : length b.url < max_url_len
  pub slash : ends_with_slash b.url ≡ true
  pub valid : b.method ≤ method_trace

slash_needed :
    (errno : ℕ) (a : Arguments) (r : ℤ × Arguments)
    → set_arguments_from_url errno a ≡ done r
    → is_nonneg r.0 ≡ true
    → ends_with_slash a.url ≡ true
slash_needed errno a r e n = elim (Bool-cases (ends_with_slash a.url)) [
  | inl s ↦ s
  | inr s ↦ ground (arith, set_arguments_from_url-no_slash errno a s)
]

from_url-Accepted :
    (arg : List ℕ) (errno : ℕ) (a b : Arguments)
    → a.url ≡ copy_url arg
    → length arg < max_url_len
    → is_supported_url arg ≡ true
    → (set_arguments_from_url errno a >>= finish) ≡ done b
    → Accepted arg b
from_url-Accepted arg errno a b u s k h =
    let (r, from, fin) = >>=-eq-done (set_arguments_from_url errno a) finish h in
    let f = finish-done r.0 r.1 b fin in
    let kept = Leaves-done (subst (Leaves a) from (set_arguments_from_url-Leaves errno a)) in
    let url : b.url ≡ copy_url arg = ap (λ (c : Arguments). c.url) f.same ∙ kept.url ∙ u in
    record {
      short = s;
      supported = k;
      copied = url;
      fits = omega (arith, length-copy_url arg, ap (λ (t : List ℕ). length t) url);
      slash =
          ap (λ (c : Arguments). ends_with_slash c.url) f.same
          ∙ ap ends_with_slash kept.url
          ∙ slash_needed errno a r from f.returns;
      valid = omega (arith, f.valid, ap (λ (c : Arguments). c.method) f.same);
    }

set_url-Accepted :
    (url : Option (List ℕ)) (p : Parse) (b : Arguments)
    → set_url url p ≡ done b
    → (arg : List ℕ) × (url ≡ some arg) × Accepted arg b
unfolding set_url
set_url-Accepted none p b h = cc
set_url-Accepted (some arg) p b h = elim (Bool-cases (leb max_url_len (length arg))) [
  | inl long ↦ absurd (ground arith)
  | inr short ↦ elim (Bool-cases (is_supported_url arg)) [
    | inr bad ↦ absurd (ground arith)
    | inl good ↦ (
      arg,
      refl,
      from_url-Accepted arg p.errno (record (p.args) { url = copy_url arg }) b refl (ground arith)
          good (rw (short, good) at h),
    )
  ]
]

-- If a command line is accepted, then whatever its options and the first `errno`: there is a URL argument of fewer than 1024 bytes with an http or https prefix; the URL kept is its copy, fits its array and ends with a slash; and the method is one of the four.
pub set_arguments_values-accepts :
    (errno : ℕ) (opts : List Opt) (url : Option (List ℕ)) (args b : Arguments)
    → set_arguments_values errno opts url (some args) ≡ done b
    → (arg : List ℕ) × (url ≡ some arg) × Accepted arg b
unfolding set_arguments_values
set_arguments_values-accepts errno opts url args b h =
    let (p, parsed, rest) =
      >>=-eq-done (apply_options (record { args = args; errno = errno }) opts) (set_url url) h in
    set_url-Accepted url p b rest

snprintf_full : (arg : List ℕ) → length arg ≡ max_url_len - 1 → snprintf max_url_len arg ≡ arg
unfolding snprintf
snprintf_full arg n = take_all (max_url_len - 1) arg (omega arith)

strncat_full :
    (arg s : List ℕ) → length arg ≡ max_url_len - 1 → strncat_sized max_url_len arg s ≡ arg
unfolding strncat_sized strncat
strncat_full arg s n =
    let e : max_url_len - length arg - 1 ≡ 0 = omega arith in rw e (append-nil arg)

copy_url-full : (arg : List ℕ) → length arg ≡ max_url_len - 1 → copy_url arg ≡ arg
unfolding copy_url
copy_url-full arg n =
    let copied = snprintf_full arg n in let kept = strncat_full arg (codes "/") n in ground arith

-- A URL argument of exactly 1023 bytes that does not end with a slash passes the check of its length and is refused all the same: there is no room to append the slash.
pub set_url-no_room :
    (p : Parse) (arg : List ℕ)
    → length arg ≡ max_url_len - 1
    → is_supported_url arg ≡ true
    → ends_with_slash arg ≡ false
    → set_url (some arg) p ≡ exit exit_failure
unfolding set_url finish
set_url-no_room p arg n k h =
    let short : leb max_url_len (length arg) ≡ false = ground arith in
    rw
      (
        short,
        k,
        copy_url-full arg n,
        set_arguments_from_url-no_slash p.errno (record (p.args) { url = arg }) h,
      )
      refl

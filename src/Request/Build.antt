-- ===== src/Request/Build.antt =====
-- src/request.c: what `build_request` promises to its caller.
use web_bench.Prelude.{
  ℕ, ◌-◌, ◌≤◌, ◌<◌, ◌≡◌, ◌∙◌, ap, refl, sym, false, List, [], ◌∷◌, ◌++◌, ◌==◌, if◌then◌else◌, arith,
  ltb, length, take_all, append_assoc, append-nil, length-append, none,
}
use web_bench.Prelude.Int.{ℤ, pos, minus_one, two_31}
use web_bench.Prelude.Digits.{print_int}
use web_bench.CString.{codes}
use web_bench.CString.Laws.{length-snprintf}
use web_bench.Arguments.{Arguments, method_trace, max_url_len, host_name_len}
use web_bench.Request.{
  HttpRequest, empty_request, has_proxy, method_text, adjust_version, crlf, has_headers, port_text,
  fill_request, build_request,
}
use web_bench.Request.Version.{adjust_version-max}
use web_bench.Request.Message.{
  Field, print_message, print_fields, print_field, fields_of, message_of, fill_request-take,
  text-print, port_text-print, rest_text, version_text, host_text, reload_text, method_name, room,
}

-- The settings as the command line leaves them: a version and a method with a name, a URL and a host that fit their arrays, and a port that is not negative.
pub record WellFormed (args : Arguments) : Type 0 where
  pub version : args.http10 ≤ 2
  pub method : args.method ≤ method_trace
  pub url : length args.url < max_url_len
  pub host : length args.target_host < host_name_len
  pub port : (n : ℕ) × (args.target_port ≡ pos n) × (n < two_31)

module _ (args : Arguments) (url : length args.url < max_url_len)
    (host : length args.target_host < host_name_len) where
  target-length : length (if has_proxy args then args.url else codes "/") ≤ 1023
  target-length = ground arith

  version-length : length (version_text args) ≤ 11
  version-length = ground arith

  agent-length : length (if ltb 0 args.http10 then codes "User-Agent: WebBench 2\r\n" else []) ≤ 24
  agent-length = ground arith

  host-length : length (host_text args) ≤ 146
  host-length = ground (
    arith,
    length-snprintf 12 (b':' ∷ print_int args.target_port) (omega arith),
    length-append args.target_host (port_text args ++ crlf),
    length-append (port_text args) crlf,
  )

  reload-length : length (reload_text args) ≤ 25
  reload-length = ground arith

  close-length : length (if args.http10 == 2 then codes "Connection: close\r\n" else []) ≤ 19
  close-length = ground arith

  end-length : length (if has_headers args then crlf else []) ≤ 2
  end-length = ground arith

  name-length : length (method_name args.method) ≤ 7
  name-length = ground arith

  total-length : length ((method_name args.method ++ codes " ") ++ rest_text args) ≤ room
  total-length = omega (
    arith,
    length-append {0},
    target-length,
    version-length,
    agent-length,
    host-length,
    reload-length,
    close-length,
    end-length,
    name-length,
  )

-- Only the version changes, and it stays one that has a name.
adjust_version-WellFormed : (args : Arguments) → WellFormed args → WellFormed (adjust_version args)
adjust_version-WellFormed args w =
    let (n, e, small) = w.port in
    rw ((adjust_version-max args w.version).0) (record {
      version = ground (arith, w.version);
      method = w.method;
      url = w.url;
      host = w.host;
      port = (n, e, small);
    })

fill_request-message :
    (args : Arguments)
    → WellFormed args
    → fill_request args (method_text args.method)
      ≡ (pos 0, args, record { host = args.target_host; body = print_message (message_of args) })
fill_request-message args w =
    let (n, e, small) = w.port in
    let port = port_text-print args n e small in
    let fits : length (print_message (message_of args)) ≤ room = omega (
      arith,
      total-length args w.url w.host,
      ap (λ (t : List ℕ). length t) (text-print args port w.version),
    ) in
    fill_request-take args port w.version w.method
    ∙ rw
        (
          take_all (host_name_len - 1) args.target_host (omega (arith, w.host)),
          take_all room (print_message (message_of args)) fits,
        )
        refl

-- On well-formed settings `build_request` returns 0, its host is the target's, and its body is exactly the HTTP message of the settings with the version adjusted (method, target, version, header lines in order, empty line): nothing is cut off by the 2048 bytes of the array.
pub build_request-message :
    (args : Arguments)
    → WellFormed args
    → build_request args ≡ (
      pos 0,
      adjust_version args,
      record { host = args.target_host; body = print_message (message_of (adjust_version args)) },
    )
unfolding build_request
build_request-message args w =
    fill_request-message (adjust_version args) (adjust_version-WellFormed args w)
    ∙ ap
        (λ h. (
          pos 0,
          adjust_version args,
          record { host = h; body = print_message (message_of (adjust_version args)) },
        ))
        (ap (λ (a : Arguments). a.target_host) (adjust_version-max args w.version).0)

adjust_version-method : (args : Arguments) → (adjust_version args).method ≡ args.method
unfolding adjust_version
adjust_version-method args = ground arith

method_text-none : (m : ℕ) → method_trace < m → method_text m ≡ none
unfolding method_text
method_text-none m h = ground arith

-- A method that has no name is refused with -1: the request stays cleared, though the version may have been adjusted before.
pub build_request-unknown_method :
    (args : Arguments)
    → method_trace < args.method
    → build_request args ≡ (minus_one, adjust_version args, empty_request)
unfolding build_request fill_request
build_request-unknown_method args h =
    rw (adjust_version-method args, method_text-none args.method h) refl

print_fields-end :
    (f : Field) (fs : List Field) → (s : List ℕ) × (print_fields (f ∷ fs) ≡ s ++ crlf)
unfolding print_fields print_field
print_fields-end f [] = (f.name ++ (codes ": " ++ f.value), simp (append_assoc, append-nil))
print_fields-end f (g ∷ fs) =
    let (s, e) = print_fields-end g fs in
    (print_field f ++ s, ap (λ t. print_field f ++ t) e ∙ sym (append_assoc (print_field f) s crlf))

fields_of-end : (args : Arguments) → (s : List ℕ) × (print_fields (fields_of args) ≡ s ++ crlf)
unfolding fields_of
fields_of-end args = print_fields-end _ _

-- A message with a version ends with an empty line, and one without is its request line alone.
print_message-versioned :
    (args : Arguments)
    → 0 < args.http10
    → (s : List ℕ) × (print_message (message_of args) ≡ s ++ (crlf ++ crlf))
unfolding print_message message_of
print_message-versioned args v =
    let (s, e) = fields_of-end args in
    let line : List ℕ = if args.http10 == 1 then codes " HTTP/1.0\r\n" else codes " HTTP/1.1\r\n" in
    let test : (args.http10 == 0) ≡ false = ground arith in
    (
      method_name args.method
          ++ (codes " " ++ ((if has_proxy args then args.url else codes "/") ++ (line ++ s))),
      rw (test, e) (simp append_assoc),
    )

print_message-simple :
    (args : Arguments)
    → args.http10 ≡ 0
    → print_message (message_of args)
      ≡ method_name args.method ++ (codes " " ++ (if has_proxy args then args.url else codes "/"))
unfolding print_message message_of
print_message-simple args v = rw v (simp append-nil)

abbrev simple_line : Arguments → List ℕ
simple_line args =
    method_name args.method ++ (codes " " ++ (if has_proxy args then args.url else codes "/"))

-- The body of a request of well-formed settings ends with an empty line if its version is 1.0 or 1.1. If it is 0.9, the body is the method, a space and the target, with nothing behind: no CR LF ends the line.
pub build_request-end :
    (args : Arguments)
    → WellFormed args
    → (0 < (adjust_version args).http10
        → (s : List ℕ) × ((build_request args).2.body ≡ s ++ (crlf ++ crlf)))
      × ((adjust_version args).http10 ≡ 0
          → (build_request args).2.body
            ≡ method_name args.method
              ++ (codes " " ++ (if has_proxy args then args.url else codes "/")))
build_request-end args w =
    let e = ap (λ (r : ℤ × Arguments × HttpRequest). r.2.body) (build_request-message args w) in
    (
      λ v. let (s, p) = print_message-versioned (adjust_version args) v in (s, e ∙ p),
      λ v.
          e
          ∙ print_message-simple (adjust_version args) v
          ∙ ap simple_line (adjust_version-max args w.version).0,
    )

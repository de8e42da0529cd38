-- ===== src/Arguments/Url/Shapes.antt =====
-- src/arguments.c: the target that `set_arguments_from_url` takes from each shape of URL.
use web_bench.Prelude.{
  ◌-◌, ℕ, suc, ◌≤◌, ◌<◌, ◌^◌, ◌≡◌, ◌≢◌, refl, ap, ◌∙◌, Bool, true, false, List, ◌∷◌, ◌++◌, ltb,
  ◌==◌, inl, if◌then◌else◌, length, arith, done, some, none, lt→ltb, Option,
}
use web_bench.Prelude.Int.{pos, minus_one, int_of_long, two_31}
use web_bench.Prelude.Digits.{print_nat, print_nat-IsDigit, print_nat_pos, length-print_nat}
use web_bench.CString.{strchr}
use web_bench.CString.Laws.{
  Lacks, strchr-none, strchr_first, digits-Lacks, strtol-print_nat, Lacks-append,
}
use web_bench.Arguments.{Arguments, host_name_len}
use web_bench.Arguments.Url.{
  ends_with_slash, parse_port, host_and_port, host_only, set_target, set_arguments_from_url,
}
use web_bench.Arguments.Url.Target.{
  with_url, with_scheme, port_url, plain_url, set_arguments_from_url-scheme, set_protocol-scheme,
  strncpy-host, colon_at, slash_at, parse_port-lem, host_and_port-fits,
}

pub set_target-before :
    (errno : ℕ) (args : Arguments) (rest : List ℕ) (colon slash : ℕ)
    → colon < slash
    → set_target errno args rest (some colon) (some slash)
      ≡ host_and_port errno args rest colon slash
unfolding set_target
set_target-before errno args rest colon slash h = rw (lt→ltb colon slash h)

int_of_long-pos : (n : ℕ) → n < two_31 → int_of_long (pos n) ≡ pos n
int_of_long-pos n h = ground arith

pub with_scheme-target_host :
    (secure : Bool) (args : Arguments) → (with_scheme secure args).target_host ≡ args.target_host
with_scheme-target_host true args = refl
with_scheme-target_host false args = refl

parse_port-print_nat :
    (errno n : ℕ) (args : Arguments)
    → 0 < n
    → n < 10 ^ 9
    → parse_port errno args (print_nat n)
      ≡ (if errno == 0 then (pos 0, record args { target_port = pos n }) else (minus_one, args))
parse_port-print_nat errno n args p h =
    let e : length (print_nat n) ≡ suc (length (print_nat n) - 1) =
      omega (arith, print_nat_pos n) in
    let read =
      strtol-print_nat n (omega arith)
      ∙ ap (λ k. record { value = pos n; end = k; erange = false }) e in
    let sign : ltb 0 n ≡ true = lt→ltb 0 n p in
    rw
      (
        parse_port-lem errno args (print_nat n) (pos n) (length (print_nat n) - 1) read sign,
        int_of_long-pos n (omega arith),
      )
      refl

abbrev pub ValidPort : ℕ → Type 0
ValidPort n = (0 < n) × (n < 10 ^ 9)

-- What `set_arguments_from_url` does with a URL that names a port.
module _ (secure : Bool) (host path : List ℕ) (args : Arguments) (n errno : ℕ)
    (hc : Lacks b':' host) (hs : Lacks b'/' host) (shorter : length args.target_host ≤ length host)
    (fits : length host ≤ host_name_len) (valid : ValidPort n)
    (slash : ends_with_slash (port_url secure host (print_nat n) path) ≡ true) where
  abbrev url : List ℕ
  url = port_url secure host (print_nat n) path

  abbrev found : Arguments
  found = record (with_scheme secure (with_url args url)) { target_host = host }

  port_url-eq :
      set_arguments_from_url errno (with_url args url) ≡ done (parse_port errno found (print_nat n))
  port_url-eq =
      let below = length-print_nat 8 n valid.1 in
      let no_slash = digits-Lacks (print_nat n) b'/' (inl (omega arith)) (print_nat-IsDigit n) in
      let old : length (with_scheme secure (with_url args url)).target_host ≤ length host =
        rw (with_scheme-target_host secure (with_url args url)) shorter in
      set_arguments_from_url-scheme secure errno args _ slash
      ∙ rw
          (
            set_protocol-scheme secure args _,
            colon_at host (print_nat n) path hc hs no_slash,
            slash_at host (print_nat n) path hc hs no_slash,
          )
          (set_target-before errno _ _ _ _ (omega arith)
            ∙ host_and_port-fits host (print_nat n) path hc hs no_slash errno _ old fits
                (omega arith))

  -- The same URL is refused with -1, and its port is not taken, whenever `errno` is not 0 on entry, whatever call has left it so.
  pub set_arguments_from_url-stale_errno :
      errno ≢ 0 → set_arguments_from_url errno (with_url args url) ≡ done (minus_one, found)
  set_arguments_from_url-stale_errno e =
      let test : (errno == 0) ≡ false = ground arith in
      port_url-eq ∙ rw (parse_port-print_nat errno n found valid.0 valid.1, test) refl

-- URLs that name no port: nothing is parsed, so `errno` does not matter.
module _ (secure : Bool) (host path : List ℕ) (args : Arguments) (errno : ℕ) (hc : Lacks b':' host)
    (hs : Lacks b'/' host) (slash : ends_with_slash (plain_url secure host path) ≡ true) where
  abbrev plain : Arguments
  plain = with_scheme secure (with_url args (plain_url secure host path))

  plain_url-eq :
      (colon : Option ℕ)
      → strchr (host ++ (b'/' ∷ path)) b':' ≡ colon
      → set_arguments_from_url errno (with_url args (plain_url secure host path))
        ≡ set_target errno plain (host ++ (b'/' ∷ path)) colon (some (length host))
  plain_url-eq colon e =
      set_arguments_from_url-scheme secure errno args _ slash
      ∙ rw (set_protocol-scheme secure args _, e, strchr_first host path b'/' hs) refl

  -- A URL with no colon behind its scheme gives its host, and the default port of its scheme: 443 for https, and for http the port that the arguments hold.
  pub set_arguments_from_url-plain :
      length args.target_host ≤ length host
      → length host ≤ host_name_len
      → Lacks b':' path
      → set_arguments_from_url errno (with_url args (plain_url secure host path))
        ≡ done (pos 0, record plain { target_host = host })
  set_arguments_from_url-plain shorter fits pc =
      let old : length plain.target_host ≤ length host =
        rw (with_scheme-target_host secure (with_url args (plain_url secure host path))) shorter in
      plain_url-eq none (strchr-none _ b':' (Lacks-append host (b'/' ∷ path) b':' hc (refl, pc)))
      ∙ unfold set_target host_only in
        rw (strncpy-host plain.target_host host (b'/' ∷ path) old fits) refl

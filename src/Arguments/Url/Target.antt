-- ===== src/Arguments/Url/Target.antt =====
-- src/arguments.c: the target that `set_arguments_from_url` finds in a URL, by the URL's shape.
use web_bench.Prelude.{
  ℕ, zero, suc, ◌+◌, ◌-◌, ◌≤◌, ◌<◌, ◌≡◌, refl, ap, ◌∙◌, Bool, true, false, some, List, [], ◌∷◌,
  ◌++◌, ◌==◌, if◌then◌else◌, length, drop, arith, done, ◌>>=◌, length-append, take_left, append-nil,
  suc_ne_zero, drop_all,
}
use web_bench.Prelude.Int.{ℤ, pos, minus_one, is_positive, int_of_long}
use web_bench.CString.{codes, strncasecmp, strstr, strchr, strncpy, read_string, strtol}
use web_bench.CString.Laws.{Lacks, strchr_first, strchr_behind}
use web_bench.Arguments.{Arguments, host_name_len}
use web_bench.Arguments.Url.{
  behind_scheme, is_https, ends_with_slash, set_protocol, parse_port, host_and_port, set_target,
  set_arguments_from_url, port_str_size,
}

abbrev pub scheme : Bool → List ℕ
scheme secure = if secure then codes "https://" else codes "http://"

abbrev pub with_url : Arguments → List ℕ → Arguments
with_url args url = record args { url = url }

-- Behind either scheme the work is that of `set_target`, on what follows the scheme.
pub set_arguments_from_url-scheme :
    (secure : Bool) (errno : ℕ) (args : Arguments) (s : List ℕ)
    → ends_with_slash (scheme secure ++ s) ≡ true
    → set_arguments_from_url errno (with_url args (scheme secure ++ s))
      ≡ set_target errno
          (set_protocol (with_url args (scheme secure ++ s)))
          s
          (strchr s b':')
          (strchr s b'/')
unfolding set_arguments_from_url behind_scheme strstr set_protocol is_https strncasecmp
set_arguments_from_url-scheme true errno args s h = rw (suc_ne_zero _, h)
set_arguments_from_url-scheme false errno args s h = rw (suc_ne_zero _, h)

-- The protocol and the default port of a scheme.
abbrev pub with_scheme : Bool → Arguments → Arguments
with_scheme secure args =
    if secure then record args { protocol = 1; target_port = pos 443 } else args

pub set_protocol-scheme :
    (secure : Bool) (args : Arguments) (s : List ℕ)
    → set_protocol (with_url args (scheme secure ++ s))
      ≡ with_scheme secure (with_url args (scheme secure ++ s))
unfolding set_protocol is_https strncasecmp
set_protocol-scheme true args s = refl
set_protocol-scheme false args s = refl

-- Copying a host over a shorter one.
pub strncpy-host :
    (old host t : List ℕ)
    → length old ≤ length host
    → length host ≤ host_name_len
    → strncpy host_name_len old (host ++ t) (length host) ≡ done host
unfolding strncpy
strncpy-host old host t h k =
    let copied = take_left host t in
    let clear = drop_all (length host) old h in
    let long = length-append host t in ground (arith, append-nil host)

module _ (host port path : List ℕ) (hc : Lacks b':' host) (hs : Lacks b'/' host)
    (ps : Lacks b'/' port) where
  pub colon_at : strchr (host ++ (b':' ∷ (port ++ (b'/' ∷ path)))) b':' ≡ some (length host)
  colon_at = strchr_first host _ b':' hc

  pub slash_at :
      strchr (host ++ (b':' ∷ (port ++ (b'/' ∷ path)))) b'/'
      ≡ some (length host + suc (length port))
  slash_at =
      strchr_behind host _ b'/' _ hs
        (strchr_behind (b':' ∷ []) _ b'/' _ (refl, tt) (strchr_first port path b'/' ps))
      ∙ ap some (omega arith)

-- The URL `scheme://host:port/path`.
abbrev pub port_url : Bool → List ℕ → List ℕ → List ℕ → List ℕ
port_url secure host port path = scheme secure ++ (host ++ (b':' ∷ (port ++ (b'/' ∷ path))))

-- The URL `scheme://host/path`.
abbrev pub plain_url : Bool → List ℕ → List ℕ → List ℕ
plain_url secure host path = scheme secure ++ (host ++ (b'/' ∷ path))

drop_nil : (n : ℕ) → drop {A = ℕ} n [] ≡ []
drop_nil zero = refl
drop_nil (suc n) = refl

pub drop_left_suc : (s t : List ℕ) (c : ℕ) → drop (suc (length s)) (s ++ (c ∷ t)) ≡ t
drop_left_suc [] t c = refl
drop_left_suc (x ∷ s) t c = drop_left_suc s t c

pub parse_port-lem :
    (errno : ℕ) (args : Arguments) (s : List ℕ) (v : ℤ) (e : ℕ)
    → strtol s ≡ record { value = v; end = suc e; erange = false }
    → is_positive v ≡ true
    → parse_port errno args s ≡ (
        if errno == 0
        then (pos 0, record args { target_port = int_of_long v })
        else (minus_one, args))
unfolding parse_port
parse_port-lem errno args s v e h k = rw (h, k, suc_ne_zero e) (ground arith)

-- The port is copied to `port_str` and read back from there.
pub port_str-copy :
    (port path : List ℕ) (host : List ℕ)
    → length port ≤ port_str_size
    → strncpy port_str_size []
        (drop (suc (length host)) (host ++ (b':' ∷ (port ++ (b'/' ∷ path)))))
        (length host + suc (length port) - length host - 1)
      ≡ done port
unfolding strncpy
port_str-copy port path host h =
    let copied = take_left port (b'/' ∷ path) in
    let long = length-append port (b'/' ∷ path) in
    let e : length host + suc (length port) - length host - 1 ≡ length port = omega arith in
    rw (drop_left_suc host (port ++ (b'/' ∷ path)) b':', e)
      (ground (arith, append-nil port, drop_nil (length port)))

pub read_string-fits :
    (s : List ℕ) → length s < port_str_size → read_string port_str_size s ≡ done s
unfolding read_string
read_string-fits s h = ground arith

module _ (host port path : List ℕ) (hc : Lacks b':' host) (hs : Lacks b'/' host)
    (ps : Lacks b'/' port) (errno : ℕ) (args : Arguments)
    (shorter : length args.target_host ≤ length host) where
  pub host_and_port-fits :
      length host ≤ host_name_len
      → length port < port_str_size
      → host_and_port errno args
          (host ++ (b':' ∷ (port ++ (b'/' ∷ path))))
          (length host)
          (length host + suc (length port))
        ≡ done (parse_port errno (record args { target_host = host }) port)
  unfolding host_and_port
  host_and_port-fits h k =
      rw
        (
          strncpy-host args.target_host host (b':' ∷ (port ++ (b'/' ∷ path))) shorter h,
          port_str-copy port path host (omega arith),
        )
        (ap
          (λ m.
            m >>= λ port_str. done (parse_port errno (record args { target_host = host }) port_str))
          (read_string-fits port k))

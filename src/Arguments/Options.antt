-- ===== src/Arguments/Options.antt =====
-- src/arguments.c: `set_arguments_values`, the command line.
--
-- What `getopt_long` returns is an argument: the options in order, and then the first positional
-- argument (`argv[optind]`), `none` where `optind == argc`. `errno` is explicit, since the port
-- number of the URL is parsed with whatever value the options left in it. Messages are left out.
pub mod Proxy
pub mod Run
use web_bench.Prelude.{
  ℕ, zero, suc, ◌+◌, ◌-◌, Bool, true, false, not, ◌||◌, Option, none, some, List, [], ◌∷◌, ltb, leb,
  ◌==◌, if◌then◌else◌, length, get_elem?, take, drop, Outcome, done, exit, fault, ◌>>=◌,
}
use web_bench.Prelude.Int.{ℤ, pos, is_positive, int_of_long, is_nonneg}
use web_bench.CString.{codes, strncat_sized, snprintf, strrchr, strtol}
use web_bench.Arguments.{Arguments, host_name_len, max_url_len, validate_arguments}
use web_bench.Arguments.Url.{is_supported_url, set_arguments_from_url}

-- A long option that sets a flag by its address, for which 0 is returned, or the character that is
-- returned with `optarg`.
pub data Opt : Type 0 where
  set_force : Opt
  set_reload : Opt
  set_method : ℕ → Opt
  opt : ℕ → List ℕ → Opt

pub record Parse : Type 0 where
  pub args : Arguments
  pub errno : ℕ

abbrev pub exit_success : ℕ
exit_success = 0

abbrev pub exit_failure : ℕ
exit_failure = 1

-- The number of `--time`, `--clients` and of a proxy's port: `errno` is cleared before, so it is 0
-- after a number that is accepted.
unfoldable pub positive_number : List ℕ → Outcome ℤ
positive_number s =
    let number = strtol s in
    if number.erange || number.end == 0 || not (is_positive number.value)
    then exit exit_failure
    else done (int_of_long number.value)

unfoldable pub set_time : Parse → List ℕ → Outcome Parse
set_time p optarg = do
  t ← positive_number optarg
  done (record { args = record (p.args) { bench_time = t }; errno = 0 })

unfoldable pub set_clients : Parse → List ℕ → Outcome Parse
set_clients p optarg = do
  t ← positive_number optarg
  done (record { args = record (p.args) { clients = t }; errno = 0 })

abbrev pub with_proxy : Arguments → List ℕ → ℤ → Arguments
with_proxy args host port = record args { proxy_host = host; proxy_port = port }

-- The last colon stands at offset `i` of the copied string `host`.
unfoldable pub set_proxy_port : Parse → List ℕ → ℕ → Outcome Parse
set_proxy_port p host i =
    if i == length host - 1
    then done (record p { args = with_proxy p.args (take i host) (pos 80) })
    else do
      port ← positive_number (drop (suc i) host)
      done (record {
        args =
            with_proxy p.args
              (if i == 0 then snprintf host_name_len (codes "127.0.0.1") else take i host) port;
        errno = 0;
      })

-- The copied string, and its last colon.
unfoldable pub set_proxy_host : Parse → List ℕ → Option ℕ → Outcome Parse
set_proxy_host p host none = done (record p { args = with_proxy p.args host (pos 80) })
set_proxy_host p host (some i) = set_proxy_port p host i

unfoldable pub set_proxy : Parse → List ℕ → Outcome Parse
set_proxy p optarg =
    let host = snprintf host_name_len optarg in set_proxy_host p host (strrchr host b':')

-- The switch on a returned character.
unfoldable pub set_option : Parse → ℕ → List ℕ → Outcome Parse
set_option p c optarg =
    if c == b'f'
    then done (record p { args = record (p.args) { force = 1 } })
    else if c == b'r'
    then done (record p { args = record (p.args) { force_reload = 1 } })
    else if c == b'9'
    then done (record p { args = record (p.args) { http10 = 0 } })
    else if c == b'1'
    then done (record p { args = record (p.args) { http10 = 1 } })
    else if c == b'2'
    then done (record p { args = record (p.args) { http10 = 2 } })
    else if c == b'V'
    then exit exit_success
    else if c == b't'
    then set_time p optarg
    else if c == b'p'
    then set_proxy p optarg
    else if c == b':' || c == b'h' || c == b'?'
    then exit exit_failure
    else if c == b'c'
    then set_clients p optarg
    else done p

unfoldable pub apply_option : Parse → Opt → Outcome Parse
apply_option p set_force = done (record p { args = record (p.args) { force = 1 } })
apply_option p set_reload = done (record p { args = record (p.args) { force_reload = 1 } })
apply_option p (set_method m) = done (record p { args = record (p.args) { method = m } })
apply_option p (opt c optarg) = set_option p c optarg

-- The loop over the options.
unfoldable pub apply_options : Parse → List Opt → Outcome Parse
apply_options p [] = done p
apply_options p (o ∷ os) = apply_option p o >>= λ q. apply_options q os

-- The URL as it is copied, with a slash at its end where there is room for one.
unfoldable pub copy_url : List ℕ → List ℕ
copy_url arg =
    let url = snprintf max_url_len arg in
    elim (get_elem? arg (length arg - 1)) [
      | none ↦ url
      | some c ↦ if c == b'/' then url else strncat_sized max_url_len url (codes "/")
    ]

unfoldable pub finish : ℤ × Arguments → Outcome Arguments
finish (ret, args) =
    if not (is_nonneg ret)
    then exit exit_failure
    else if validate_arguments args
    then done args
    else exit exit_failure

-- The positional argument, once the options are read.
unfoldable pub set_url : Option (List ℕ) → Parse → Outcome Arguments
set_url none p = exit exit_failure
set_url (some arg) p =
    if leb max_url_len (length arg)
    then exit exit_failure
    else if not (is_supported_url arg)
    then exit exit_failure
    else set_arguments_from_url p.errno (record (p.args) { url = copy_url arg }) >>= finish

-- `none` is a NULL pointer to the arguments.
unfoldable pub set_arguments_values :
    ℕ → List Opt → Option (List ℕ) → Option Arguments → Outcome Arguments
set_arguments_values errno opts url none = exit exit_failure
set_arguments_values errno opts url (some args) =
    apply_options (record { args = args; errno = errno }) opts >>= set_url url

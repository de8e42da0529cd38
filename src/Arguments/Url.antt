-- ===== src/Arguments/Url.antt =====
-- src/arguments.c: `is_https`, `is_supported_url` and `set_arguments_from_url`.
--
-- `errno` is the value that the function finds, since the code tests it after `strtol` and does not
-- clear it before. A result is the returned `int` with the arguments as they are left.
pub mod Target
pub mod Shapes
pub mod Bounds
use web_bench.Prelude.{
  ℕ, zero, suc, ◌+◌, ◌-◌, Bool, true, false, not, ◌||◌, Option, none, some, List, [], ◌∷◌, ltb,
  ◌==◌, if◌then◌else◌, length, get_elem?, drop, Outcome, done, fault, ◌>>=◌,
}
use web_bench.Prelude.Int.{ℤ, pos, minus_one, is_positive, int_of_long}
use web_bench.CString.{codes, strncasecmp, strstr, strchr, strncpy, read_string, strtol}
use web_bench.Arguments.{Arguments, protocol_https, host_name_len}

unfoldable pub is_https : List ℕ → Bool
is_https url = strncasecmp (codes "https://") url 8

unfoldable pub is_supported_url : List ℕ → Bool
is_supported_url url = strncasecmp (codes "http://") url 7 || strncasecmp (codes "https://") url 8

-- The size of `port_str`.
abbrev pub port_str_size : ℕ
port_str_size = 10

-- `s[strlen(s) - 1] == '/'`, for a string that is not empty.
abbrev pub ends_with_slash : List ℕ → Bool
ends_with_slash s = elim (get_elem? s (length s - 1)) [ none ↦ false | some c ↦ c == b'/' ]

-- The protocol and the default port.
unfoldable pub set_protocol : Arguments → Arguments
set_protocol args =
    if is_https args.url
    then record args { protocol = protocol_https; target_port = pos 443 }
    else args

-- The port number behind the colon.
unfoldable pub parse_port : ℕ → Arguments → List ℕ → ℤ × Arguments
parse_port errno args port_str =
    let number = strtol port_str in
    if not (errno == 0) || number.erange || number.end == 0 || not (is_positive number.value)
    then (minus_one, args)
    else (pos 0, record args { target_port = int_of_long number.value })

-- Both a colon and a slash behind the host, at these offsets from it: the colon comes first.
unfoldable pub host_and_port : ℕ → Arguments → List ℕ → ℕ → ℕ → Outcome (ℤ × Arguments)
host_and_port errno args rest colon slash = do
  host ← strncpy host_name_len args.target_host rest colon
  port ← strncpy port_str_size [] (drop (suc colon) rest) (slash - colon - 1)
  port_str ← read_string port_str_size port
  done (parse_port errno (record args { target_host = host }) port_str)

unfoldable pub host_only : Arguments → List ℕ → ℕ → Outcome (ℤ × Arguments)
host_only args rest slash = do
  host ← strncpy host_name_len args.target_host rest slash
  done (pos 0, record args { target_host = host })

-- The branches on the first colon and the first slash. Without a slash the second branch would
-- subtract from NULL; a colon behind the slash leaves the host as it is.
unfoldable pub set_target : ℕ → Arguments → List ℕ → Option ℕ → Option ℕ → Outcome (ℤ × Arguments)
set_target errno args rest (some colon) (some slash) =
    if ltb colon slash then host_and_port errno args rest colon slash else done (pos 0, args)
set_target errno args rest (some colon) none = done (pos 0, args)
set_target errno args rest none (some slash) = host_only args rest slash
set_target errno args rest none none = fault

-- The host begins 3 bytes behind the offset of `://`; without one the code would compute with NULL.
unfoldable pub behind_scheme : ℕ → Arguments → Option ℕ → Outcome (ℤ × Arguments)
behind_scheme errno args none = fault
behind_scheme errno args (some i) =
    let rest = drop (i + 3) args.url in
    set_target errno args rest (strchr rest b':') (strchr rest b'/')

unfoldable pub set_arguments_from_url : ℕ → Arguments → Outcome (ℤ × Arguments)
set_arguments_from_url errno args =
    if length args.url == 0
    then done (minus_one, args)
    else if not (ends_with_slash args.url)
    then done (minus_one, args)
    else behind_scheme errno (set_protocol args) (strstr args.url (codes "://"))

-- ===== src/Arguments/Url/Bounds.antt =====
-- src/arguments.c: which URLs make `set_arguments_from_url` leave its two arrays, the host of the
-- arguments and `port_str` on the stack.
use web_bench.Prelude.{ℕ, ◌≤◌, ◌≡◌, refl, Bool, true, false, List, length, fault}
use web_bench.CString.{strncasecmp, strchr, strstr}
use web_bench.CString.Laws.{Lacks}
use web_bench.Arguments.{Arguments}
use web_bench.Arguments.Url.{
  behind_scheme, is_https, ends_with_slash, set_protocol, set_target, set_arguments_from_url,
}
use web_bench.Arguments.Url.Target.{scheme, with_url, with_scheme, port_url}

module _ (secure : Bool) (host port path : List ℕ) (args : Arguments) (errno : ℕ)
    (hc : Lacks b':' host) (hs : Lacks b'/' host) (ps : Lacks b'/' port)
    (shorter : length args.target_host ≤ length host)
    (slash : ends_with_slash (port_url secure host port path) ≡ true) where
  abbrev url_args : Arguments
  url_args = with_scheme secure (with_url args (port_url secure host port path))

-- A URL that is only a scheme, `http://` or `https://`, makes the function compute with the NULL that `strchr` gives for the missing slash.
pub set_arguments_from_url-only_scheme :
    (secure : Bool) (errno : ℕ) (args : Arguments)
    → set_arguments_from_url errno (with_url args (scheme secure)) ≡ fault
unfolding set_arguments_from_url behind_scheme set_protocol is_https strncasecmp strstr strchr
    set_target
set_arguments_from_url-only_scheme true errno args = refl
set_arguments_from_url-only_scheme false errno args = refl

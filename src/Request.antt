-- ===== src/Request.antt =====
-- include/request.h and src/request.c: the request that every connection sends.
--
-- The body is an array of 2048 bytes, cleared first and then appended to by `strncat` with the room
-- that is left. The arguments come back too, since the function may raise `http10`.
pub mod Version
pub mod Message
pub mod Build
use web_bench.Prelude.{
  ℕ, ◌<◌, Bool, true, false, not, ◌&&◌, ◌||◌, Option, none, some, List, [], ◌∷◌, ◌++◌, ltb, ◌==◌,
  if◌then◌else◌, length,
}
use web_bench.Prelude.Int.{ℤ, pos, minus_one}
use web_bench.Prelude.Digits.{print_int}
use web_bench.CString.{codes, strncat_sized, snprintf}
use web_bench.Arguments.{
  Arguments, method_get, method_head, method_options, method_trace, http_version_0_9,
  http_version_1_0, http_version_1_1,
}

abbrev pub max_host_name_length : ℕ
max_host_name_length = 128

abbrev pub request_body_size : ℕ
request_body_size = 2048

pub record HttpRequest : Type 0 where
  pub host : List ℕ
  pub body : List ℕ

abbrev pub empty_request : HttpRequest
empty_request = record { host = []; body = [] }

abbrev pub has_proxy : Arguments → Bool
has_proxy args = ltb 0 (length args.proxy_host)

-- The three corrections of the version, in order.
unfoldable pub reload_version : Arguments → Arguments
reload_version args =
    if not (args.force_reload == 0) && has_proxy args && args.http10 == http_version_0_9
    then record args { http10 = http_version_1_0 }
    else args

unfoldable pub head_version : Arguments → Arguments
head_version args =
    if args.method == method_head && args.http10 == http_version_0_9
    then record args { http10 = http_version_1_0 }
    else args

unfoldable pub options_version : Arguments → Arguments
options_version args =
    if (args.method == method_options || args.method == method_trace)
      && not (args.http10 == http_version_1_1)
    then record args { http10 = http_version_1_1 }
    else args

unfoldable pub adjust_version : Arguments → Arguments
unfolding reload_version head_version options_version
adjust_version args = options_version (head_version (reload_version args))

-- The switch on the method; `none` is its `default`.
unfoldable pub method_text : ℕ → Option (List ℕ)
method_text m =
    if m == method_get
    then some (codes "GET ")
    else if m == method_head
    then some (codes "HEAD ")
    else if m == method_options
    then some (codes "OPTIONS ")
    else if m == method_trace
    then some (codes "TRACE ")
    else none

abbrev pub crlf : List ℕ
crlf = codes "\r\n"

abbrev pub append : List ℕ → List ℕ → List ℕ
append body text = strncat_sized request_body_size body text

abbrev pub append_if : Bool → List ℕ → List ℕ → List ℕ
append_if test body text = if test then append body text else body

-- Versions 1.0 and 1.1.
abbrev pub has_headers : Arguments → Bool
has_headers args = args.http10 == http_version_1_0 || args.http10 == http_version_1_1

unfoldable pub append_version : Arguments → List ℕ → List ℕ
append_version args body =
    if args.http10 == http_version_1_0
    then append body (codes " HTTP/1.0\r\n")
    else append_if (args.http10 == http_version_1_1) body (codes " HTTP/1.1\r\n")

-- The size of `port_str`.
abbrev pub port_text : Arguments → List ℕ
port_text args = snprintf 12 (b':' ∷ print_int args.target_port)

unfoldable pub append_host : Arguments → List ℕ → List ℕ
append_host args body =
    if not (has_proxy args) && has_headers args
    then append (append (append (append body (codes "Host: ")) args.target_host) (port_text args))
        crlf
    else body

unfoldable pub append_reload : Arguments → List ℕ → List ℕ
append_reload args body =
    if has_proxy args && not (args.force_reload == 0)
    then (if args.http10 == http_version_1_0
        then append body (codes "Pragma: no-cache\r\n")
        else append_if (args.http10 == http_version_1_1) body (codes "Cache-Control: no-cache\r\n"))
    else body

-- All that follows the method, on the arguments with the final version.
unfoldable pub append_rest : Arguments → List ℕ → List ℕ
append_rest args method =
    let target = append method (if has_proxy args then args.url else codes "/") in
    let line = append_version args target in
    let agent = append_if (ltb 0 args.http10) line (codes "User-Agent: WebBench 2\r\n") in
    let host = append_host args agent in
    let reload = append_reload args host in
    let close =
      append_if (args.http10 == http_version_1_1) reload (codes "Connection: close\r\n") in
    append_if (has_headers args) close crlf

unfoldable pub fill_request : Arguments → Option (List ℕ) → ℤ × Arguments × HttpRequest
fill_request args none = (minus_one, args, empty_request)
fill_request args (some method) = (
  pos 0,
  args,
  record {
    host = snprintf max_host_name_length args.target_host;
    body = append_rest args (snprintf request_body_size method);
  },
)

unfoldable pub build_request : Arguments → ℤ × Arguments × HttpRequest
build_request args =
    let args' = adjust_version args in fill_request args' (method_text args'.method)

-- ===== src/Arguments.antt =====
-- include/arguments.h and src/arguments.c: the settings of a run, their defaults and their check.
-- `Url` takes the target from the URL, `Options` reads the command line.
--
-- A setting that the code only sets to constants (protocol, http10, method, force, force_reload) is
-- a number; one that comes from `strtol` by a cast to `int` is an integer.
pub mod Url
pub mod Options
use web_bench.Prelude.{ℕ, Bool, true, false, List, [], leb}
use web_bench.Prelude.Int.{ℤ, pos}

abbrev pub method_get : ℕ
method_get = 0

abbrev pub method_head : ℕ
method_head = 1

abbrev pub method_options : ℕ
method_options = 2

abbrev pub method_trace : ℕ
method_trace = 3

abbrev pub protocol_http : ℕ
protocol_http = 0

abbrev pub protocol_https : ℕ
protocol_https = 1

abbrev pub http_version_0_9 : ℕ
http_version_0_9 = 0

abbrev pub http_version_1_0 : ℕ
http_version_1_0 = 1

abbrev pub http_version_1_1 : ℕ
http_version_1_1 = 2

-- HOSTNAMELEN and MAX_URL_LEN.
abbrev pub host_name_len : ℕ
host_name_len = 128

abbrev pub max_url_len : ℕ
max_url_len = 1024

pub record Arguments : Type 0 where
  pub clients : ℤ
  pub force : ℕ
  pub force_reload : ℕ
  pub proxy_host : List ℕ
  pub proxy_port : ℤ
  pub target_host : List ℕ
  pub target_port : ℤ
  pub bench_time : ℤ
  pub protocol : ℕ
  pub http10 : ℕ
  pub method : ℕ
  pub url : List ℕ

unfoldable pub create_default_arguments : Arguments
create_default_arguments = record {
  clients = pos 1;
  force = 0;
  force_reload = 0;
  proxy_host = [];
  proxy_port = pos 80;
  target_host = [];
  target_port = pos 80;
  bench_time = pos 30;
  protocol = protocol_http;
  http10 = http_version_1_1;
  method = method_get;
  url = [];
}

-- The methods with a `case` of the switch are the numbers from 0 to 3.
unfoldable pub validate_arguments : Arguments → Bool
validate_arguments args = leb args.method method_trace

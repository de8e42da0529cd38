-- ===== src/Tests/Requests.antt =====
-- src/request.c: requests at concrete settings.
use web_bench.Prelude.{ℕ, ◌<◌, ◌≡◌, refl, List, ◌++◌, arith}
use web_bench.Prelude.Int.{pos}
use web_bench.CString.{codes, snprintf, strncat_sized}
use web_bench.Prelude.Digits.{print_int}
use web_bench.Arguments.{Arguments}
use web_bench.Request.{
  adjust_version, build_request, fill_request, append_rest, append_version, append_host,
  append_reload, method_text, crlf,
}
use web_bench.Request.Version.{adjust_version-max}
use web_bench.Request.Message.{print_message, message_of}
use web_bench.Request.Build.{WellFormed, build_request-message, build_request-end}

-- `HEAD` through a proxy, with a reload, where version 0.9 is asked for.
abbrev head_args : Arguments
head_args = record {
  clients = pos 1;
  force = 0;
  force_reload = 1;
  proxy_host = codes "proxy";
  proxy_port = pos 3128;
  target_host = codes "ab";
  target_port = pos 80;
  bench_time = pos 30;
  protocol = 0;
  http10 = 0;
  method = 1;
  url = codes "http://ab/";
}

abbrev get_args : Arguments
get_args = record head_args { method = 0; force_reload = 0 }

abbrev unknown_args : Arguments
unknown_args = record head_args { method = 4 }

head_args-WellFormed : WellFormed head_args
head_args-WellFormed = record {
  version = omega arith;
  method = omega arith;
  url = omega arith;
  host = omega arith;
  port = (80, refl, omega arith);
}

get_args-WellFormed : WellFormed get_args
get_args-WellFormed = record {
  version = omega arith;
  method = omega arith;
  url = omega arith;
  host = omega arith;
  port = (80, refl, omega arith);
}

adjust_version-max_example :
    (adjust_version head_args ≡ record head_args { http10 = 1 })
    × (adjust_version (adjust_version head_args) ≡ adjust_version head_args)
adjust_version-max_example = adjust_version-max head_args (omega arith)

build_request-message_example : build_request head_args ≡ (
  pos 0,
  adjust_version head_args,
  record { host = codes "ab"; body = print_message (message_of (adjust_version head_args)) },
)
build_request-message_example = build_request-message head_args head_args-WellFormed

build_request-end_example :
    (0 < (adjust_version get_args).http10
      → (s : List ℕ) × ((build_request get_args).2.body ≡ s ++ (crlf ++ crlf)))
    × ((adjust_version get_args).http10 ≡ 0
        → (build_request get_args).2.body ≡ codes "GET" ++ (codes " " ++ codes "http://ab/"))
build_request-end_example = build_request-end get_args get_args-WellFormed

-- The whole text of a request through a proxy.
head_request :
    (build_request head_args).2.body
    ≡ codes "HEAD http://ab/ HTTP/1.0\r\nUser-Agent: WebBench 2\r\nPragma: no-cache\r\n\r\n"
unfolding build_request fill_request append_rest append_version append_host append_reload
    method_text adjust_version print_int snprintf strncat_sized
head_request = refl

-- ===== src/Tests/Inputs.antt =====
-- src/bitmap.c, src/arguments.c: bitmaps, command lines and URLs at concrete inputs.
use web_bench.Prelude.{ℕ, ◌≡◌, refl, true, some, List, [], ◌∷◌, replicate, done, arith}
use web_bench.Prelude.Int.{pos, minus_one}
use web_bench.Prelude.Digits.{print_nat}
use web_bench.CString.{codes, strncasecmp, strstr, strchr, strncpy, snprintf, strncat_sized}
use web_bench.Bitmap.{get_bitmap}
use web_bench.Bitmap.Laws.{byte_zero}
use web_bench.Bitmap.Marks.{mark_all, get_bitmap-mark_all}
use web_bench.Arguments.{Arguments, create_default_arguments, validate_arguments}
use web_bench.Arguments.Url.{
  is_supported_url, is_https, set_arguments_from_url, behind_scheme, set_target, host_only,
  set_protocol,
}
use web_bench.Arguments.Url.Target.{with_url, with_scheme, port_url}
use web_bench.Arguments.Url.Shapes.{set_arguments_from_url-stale_errno}
use web_bench.Arguments.Options.{
  Opt, opt, set_url, set_arguments_values, apply_options, apply_option, set_option, copy_url,
  finish,
}
use web_bench.Arguments.Options.Run.{Accepted, set_arguments_values-accepts}

abbrev two_bytes : List ℕ
two_bytes = replicate 2 byte_zero

get_bitmap-mark_all_example :
    (bytes : List ℕ) × (mark_all 2 two_bytes (3 ∷ 9 ∷ []) ≡ done bytes)
    × (get_bitmap 9 (some bytes) (pos 2) ≡ done (pos 1))
get_bitmap-mark_all_example =
    get_bitmap-mark_all 2 9 (3 ∷ 9 ∷ []) (omega arith) (omega arith, (omega arith, tt))
      (omega arith)

abbrev pub defaults : Arguments
defaults = create_default_arguments

abbrev host : List ℕ
host = codes "ab"

set_arguments_from_url-stale_errno_example :
    set_arguments_from_url 34 (with_url defaults (port_url true host (print_nat 8080) []))
    ≡ done (
      minus_one,
      record (with_scheme true (with_url defaults (port_url true host (print_nat 8080) []))) {
        target_host = host;
      },
    )
unfolding create_default_arguments print_nat
set_arguments_from_url-stale_errno_example =
    set_arguments_from_url-stale_errno true host [] defaults 8080 34 (refl, (refl, tt))
      (refl, (refl, tt)) (omega arith) (omega arith) (omega arith, omega arith) refl (omega arith)

abbrev long_port : List ℕ
long_port = codes "0000000080"

-- An accepted command line: `-r http://ab/`.
abbrev pub simple_url : List ℕ
simple_url = codes "http://ab/"

abbrev pub simple_options : List Opt
simple_options = opt b'r' [] ∷ []

abbrev pub simple_args : Arguments
simple_args = record {
  clients = pos 1;
  force = 0;
  force_reload = 1;
  proxy_host = [];
  proxy_port = pos 80;
  target_host = codes "ab";
  target_port = pos 80;
  bench_time = pos 30;
  protocol = 0;
  http10 = 2;
  method = 0;
  url = simple_url;
}

pub simple_command :
    set_arguments_values 0 simple_options (some simple_url) (some defaults) ≡ done simple_args
unfolding set_arguments_values apply_options apply_option set_option set_url copy_url finish
    validate_arguments set_arguments_from_url behind_scheme set_target host_only set_protocol
    is_https is_supported_url strncasecmp strstr strchr strncpy snprintf create_default_arguments
    strncat_sized
simple_command = refl

set_arguments_values-accepts_example :
    (arg : List ℕ) × (some simple_url ≡ some arg) × Accepted arg simple_args
set_arguments_values-accepts_example =
    set_arguments_values-accepts 0 simple_options (some simple_url) defaults simple_args
      simple_command

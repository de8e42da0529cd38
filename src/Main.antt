-- ===== src/Main.antt =====
-- src/webbench2.c: `main`, from the command line over the request to the epoll engine.
--
-- `usage` and the line that is printed before the run are left out.
pub mod Message
use web_bench.Prelude.{ℕ, Option, some, List, ◌==◌, if◌then◌else◌, Outcome, exit, ◌>>=◌}
use web_bench.Arguments.{Arguments, create_default_arguments}
use web_bench.Arguments.Options.{Opt, exit_failure, set_arguments_values}
use web_bench.Request.{build_request}
use web_bench.Epoll.Bench.{Run, Finished, bench_epoll}

-- The request is built first, since that may change the arguments that the engine is given; what
-- `build_request` returns is not looked at.
unfoldable pub start_bench : Run → Arguments → Outcome (Option Finished)
start_bench run args = let built = build_request args in bench_epoll run built.1 built.2.body

-- The number of arguments, the first `errno`, the options and the URL as `getopt_long` gives them, and
-- what the system does in the run.
unfoldable pub main : ℕ → ℕ → List Opt → Option (List ℕ) → Run → Outcome (Option Finished)
main argc errno opts url run =
    if argc == 1
    then exit exit_failure
    else set_arguments_values errno opts url (some create_default_arguments) >>= start_bench run

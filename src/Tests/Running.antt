-- ===== src/Tests/Running.antt =====
-- src/webbench2.c: a whole run from a concrete command line.
use web_bench.Prelude.{◌≡◌, refl, none, [], exit}
use web_bench.Main.{main}
use web_bench.Tests.Rounds.{short_run}

-- Without an argument the program prints its usage, and without a URL too.
no_argument : main 1 0 [] none short_run ≡ exit 1
unfolding main
no_argument = refl

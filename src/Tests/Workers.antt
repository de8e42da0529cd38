-- ===== src/Tests/Workers.antt =====
-- src/bench2.c: two threads at concrete replies.
use mathlib.Core.List.{reverse}
use mathlib.Core.List.Permᴰ
use web_bench.Prelude.{◌+◌, ◌%◌, ◌≡◌, refl, true, Option, some, List, [], ◌∷◌}
use web_bench.Prelude.Int.{ℤ, pos, negsuc, two_32}
use web_bench.Threads.{
  Counters, bench, bench_with_no_racing, run_threads, bench_worker, worker_loop, count_reply,
  add_all,
}
use web_bench.Threads.Totals.{bench-no_racing, bench-counts, reply_count}

abbrev two_threads : List (Option (List ℤ))
two_threads = some (pos 5 ∷ (negsuc 0 ∷ [])) ∷ (some (pos 7 ∷ []) ∷ [])

abbrev last_first : List Counters → List Counters
last_first cs = reverse cs

bench-no_racing_example : bench true two_threads last_first ≡ bench_with_no_racing true two_threads
bench-no_racing_example =
    bench-no_racing true two_threads last_first (λ cs. Permᴰ.reverse cs)
      ((λ e. cc, (λ e. cc, tt)), ((λ e. cc, tt), tt))

abbrev totals : Counters
totals = record { speed = 2; failed = 1; bytes = 12 }

two_threads-totals : bench true two_threads last_first ≡ some totals
unfolding bench run_threads bench_worker worker_loop count_reply add_all
two_threads-totals = refl

bench-counts_example : (totals.speed + totals.failed) % two_32 ≡ reply_count two_threads % two_32
bench-counts_example =
    bench-counts true two_threads last_first totals (λ cs. Permᴰ.reverse cs) two_threads-totals

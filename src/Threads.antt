-- ===== src/Threads.antt =====
-- src/bench2.c: the engine of worker threads, with shared counters and without.
--
-- `communicate` is a parameter: a thread comes with the replies that its calls give until the time
-- is up, each a number of bytes or a negative number. The mutex makes the additions of one worker to
-- the shared counters one step; the order in which the workers get it is a parameter of `bench`.
-- Counters are `int`s, held as their 32 bits.
pub mod Totals
use web_bench.Prelude.{ℕ, Bool, not, Option, none, some, List, [], ◌∷◌, ◌==◌, if◌then◌else◌}
use web_bench.Prelude.Int.{ℤ, pos, negsuc, add_int}

pub record Counters : Type 0 where
  pub speed : ℕ
  pub failed : ℕ
  pub bytes : ℕ

abbrev pub no_counts : Counters
no_counts = record { speed = 0; failed = 0; bytes = 0 }

-- A reply that is counted, with its bytes, and one that is not.
abbrev pub heard : Counters → ℕ → Counters
heard c n = record c { speed = add_int c.speed 1; bytes = add_int c.bytes n }

abbrev pub missed : Counters → Counters
missed c = record c { failed = add_int c.failed 1 }

-- `ret >= 0`.
unfoldable pub count_reply : Counters → ℤ → Counters
count_reply c (pos n) = heard c n
count_reply c (negsuc n) = missed c

-- `ret > 0`.
unfoldable pub count_reply_no_racing : Counters → ℤ → Counters
count_reply_no_racing c (pos n) = if n == 0 then missed c else heard c n
count_reply_no_racing c (negsuc n) = missed c

-- The loop of a worker, on its local counters.
unfoldable pub worker_loop : (Counters → ℤ → Counters) → Counters → List ℤ → Counters
worker_loop count c [] = c
worker_loop count c (r ∷ rs) = worker_loop count (count c r) rs

unfoldable pub bench_worker : List ℤ → Counters
bench_worker replies = worker_loop count_reply no_counts replies

unfoldable pub bench_worker_no_racing : List ℤ → Counters
bench_worker_no_racing replies = worker_loop count_reply_no_racing no_counts replies

-- A worker's counters are added to the totals.
abbrev pub add_counters : Counters → Counters → Counters
add_counters total c = record {
  speed = add_int total.speed c.speed;
  failed = add_int total.failed c.failed;
  bytes = add_int total.bytes c.bytes;
}

unfoldable pub add_all : Counters → List Counters → Counters
add_all total [] = total
add_all total (c ∷ cs) = add_all (add_counters total c) cs

-- The threads that are created, each with its replies, `none` where `pthread_create` fails: then the
-- function returns without results.
unfoldable pub run_threads : (List ℤ → Counters) → List (Option (List ℤ)) → Option (List Counters)
run_threads worker [] = some []
run_threads worker (none ∷ ts) = none
run_threads worker (some replies ∷ ts) = elim (run_threads worker ts) [
  | none ↦ none
  | some cs ↦ some (worker replies ∷ cs)
]

unfoldable pub bench :
    Bool → List (Option (List ℤ)) → (List Counters → List Counters) → Option Counters
bench malloc threads lock_order =
    if not malloc then none else elim (run_threads bench_worker threads) [
      | none ↦ none
      | some locals ↦ some (add_all no_counts (lock_order locals))
    ]

-- The summary adds the workers' counters in the order of the array.
unfoldable pub bench_with_no_racing : Bool → List (Option (List ℤ)) → Option Counters
bench_with_no_racing malloc threads =
    if not malloc then none else elim (run_threads bench_worker_no_racing threads) [
      | none ↦ none
      | some locals ↦ some (add_all no_counts locals)
    ]

-- ===== src/Communicator/Force.antt =====
-- src/communicator.c and src/bench2.c: the engines of worker threads in force mode.
use web_bench.Prelude.{
  ℕ, ◌+◌, ◌%◌, ◌≡◌, refl, ap, ◌∙◌, sym, subst, true, some, List, [], ◌∷◌, ◌==◌, length, map, arith,
  some-injective,
}
use web_bench.Prelude.Int.{ℤ, pos, negsuc, two_32}
use web_bench.Arguments.{Arguments}
use web_bench.Communicator.{Ended, returned, waiting, crashed}
use web_bench.Communicator.Talk.{Calls, communicate}
use web_bench.Communicator.Walk.{ReturnsOr, communicate-EndsBy}
use web_bench.Threads.{
  Counters, no_counts, missed, count_reply_no_racing, worker_loop, bench_worker_no_racing,
  add_counters, add_all, run_threads, bench_with_no_racing,
}

-- No bytes are reported.
abbrev pub NoBytes : Ended → Type 0
NoBytes (returned (pos n)) = n ≡ 0
NoBytes (returned (negsuc n)) = Unit
NoBytes waiting = Unit
NoBytes crashed = Unit

NoBytes-ReturnsOr : (e : Ended) → ReturnsOr NoBytes e
NoBytes-ReturnsOr (returned r) = tt
NoBytes-ReturnsOr waiting = tt
NoBytes-ReturnsOr crashed = tt

communicate-NoBytes :
    (calls : Calls) (args : Arguments) (body : List ℕ)
    → args.force ≡ 1
    → NoBytes (communicate calls args body).ended
communicate-NoBytes calls args body h =
    let never : (args.force == 1) ≡ true = ground arith in
    communicate-EndsBy NoBytes calls args body (record {
      failure = tt;
      zero_reply = refl;
      sockets = λ port. NoBytes-ReturnsOr _;
      http = λ e. cc;
      no_ssl = λ e. tt;
      sending = NoBytes-ReturnsOr _;
      https = λ e. cc;
    })

-- The replies of the calls that a worker makes, one after the other, each of which returns.
abbrev pub Works : Arguments → List ℕ → List Calls → List ℤ → Type 0
Works args body [] [] = Unit
Works args body [] (r ∷ rs) = ⊥
Works args body (c ∷ cs) [] = ⊥
Works args body (c ∷ cs) (r ∷ rs) =
    ((communicate c args body).ended ≡ returned r) × Works args body cs rs

-- Every worker's.
abbrev pub AllWork : Arguments → List ℕ → List (List Calls) → List (List ℤ) → Type 0
AllWork args body [] [] = Unit
AllWork args body [] (rs ∷ rss) = ⊥
AllWork args body (cs ∷ css) [] = ⊥
AllWork args body (cs ∷ css) (rs ∷ rss) = Works args body cs rs × AllWork args body css rss

-- How many calls all workers make.
abbrev pub call_count : List (List Calls) → ℕ
call_count [] = 0
call_count (cs ∷ css) = length cs + call_count css

-- Counters that know of `n` failures and of nothing else.
record OnlyFailed (n : ℕ) (c : Counters) : Type 0 where
  speed : c.speed ≡ 0
  bytes : c.bytes ≡ 0
  failed : c.failed ≡ n % two_32

count_reply_no_racing-missed :
    (c : Counters) (r : ℤ) → NoBytes (returned r) → count_reply_no_racing c r ≡ missed c
unfolding count_reply_no_racing
count_reply_no_racing-missed c (pos n) h = ground arith
count_reply_no_racing-missed c (negsuc n) h = refl

module _ (args : Arguments) (body : List ℕ) (force : args.force ≡ 1) where
  worker_loop-OnlyFailed :
      (n : ℕ) (c : Counters) (cs : List Calls) (rs : List ℤ)
      → OnlyFailed n c
      → Works args body cs rs
      → OnlyFailed (n + length cs) (worker_loop count_reply_no_racing c rs)
  unfolding worker_loop
  worker_loop-OnlyFailed n c [] [] o w = ground arith
  worker_loop-OnlyFailed n c [] (r ∷ rs) o w = absurd w
  worker_loop-OnlyFailed n c (call ∷ cs) [] o w = absurd w
  worker_loop-OnlyFailed n c (call ∷ cs) (r ∷ rs) o w =
      let silent = subst NoBytes w.0 (communicate-NoBytes call args body force) in
      let next : OnlyFailed (n + 1) (missed c) = ground arith in
      let rest = worker_loop-OnlyFailed (n + 1) (missed c) cs rs next w.1 in
      rw (count_reply_no_racing-missed c r silent) (ground arith)

  worker-OnlyFailed :
      (cs : List Calls) (rs : List ℤ)
      → Works args body cs rs
      → OnlyFailed (length cs) (bench_worker_no_racing rs)
  unfolding bench_worker_no_racing
  worker-OnlyFailed cs rs w =
      subst (λ k. OnlyFailed k (worker_loop count_reply_no_racing no_counts rs)) {x = 0 + length cs}
        (omega arith)
        (worker_loop-OnlyFailed 0 no_counts cs rs
          (record { speed = refl; bytes = refl; failed = omega arith }) w)

  all-OnlyFailed :
      (n : ℕ) (c : Counters) (css : List (List Calls)) (rss : List (List ℤ))
      → OnlyFailed n c
      → AllWork args body css rss
      → OnlyFailed (n + call_count css) (add_all c (map bench_worker_no_racing rss))
  unfolding add_all
  all-OnlyFailed n c [] [] o w = ground arith
  all-OnlyFailed n c [] (r ∷ rs) o w = absurd w
  all-OnlyFailed n c (call ∷ cs) [] o w = absurd w
  all-OnlyFailed n c (cs ∷ css) (rs ∷ rss) o w =
      let mine = worker-OnlyFailed cs rs w.0 in
      let both : OnlyFailed (n + length cs) (add_counters c (bench_worker_no_racing rs)) =
        ground arith in
      subst
        (λ k.
          OnlyFailed k
            (add_all (add_counters c (bench_worker_no_racing rs)) (map bench_worker_no_racing rss)))
        {x = n + length cs + call_count css} (omega arith)
        (all-OnlyFailed (n + length cs) (add_counters c (bench_worker_no_racing rs)) css rss both
          w.1)

run_threads-map :
    (worker : List ℤ → Counters) (rss : List (List ℤ))
    → run_threads worker (map some rss) ≡ some (map worker rss)
unfolding run_threads
run_threads-map worker [] = refl
run_threads-map worker (rs ∷ rss) = rw (run_threads-map worker rss) refl

-- In force mode, where every call of `communicate` by every worker returns, the engine without shared counters reports no response and no byte, and counts every call as a failure, modulo 2 ^ 32, also those whose request was taken whole.
pub bench_with_no_racing-force :
    (args : Arguments) (body : List ℕ) (calls : List (List Calls)) (replies : List (List ℤ))
    (total : Counters)
    → args.force ≡ 1
    → AllWork args body calls replies
    → bench_with_no_racing true (map some replies) ≡ some total
    → (total.speed ≡ 0) × (total.bytes ≡ 0) × (total.failed ≡ call_count calls % two_32)
unfolding bench_with_no_racing
bench_with_no_racing-force args body calls replies total h w e =
    let none_yet : OnlyFailed 0 no_counts = record {
      speed = refl;
      bytes = refl;
      failed = omega arith;
    } in
    let o = all-OnlyFailed args body h 0 no_counts calls replies none_yet w in
    let sum = add_all no_counts (map bench_worker_no_racing replies) in
    let totals : bench_with_no_racing true (map some replies) ≡ some sum =
      rw (run_threads-map bench_worker_no_racing replies) refl in
    let same : sum ≡ total = some-injective sum total (sym totals ∙ e) in
    let speed = ap (λ (t : Counters). t.speed) same in
    let bytes = ap (λ (t : Counters). t.bytes) same in
    let failed = ap (λ (t : Counters). t.failed) same in
    (omega (arith, o.speed), omega (arith, o.bytes), omega (arith, o.failed))

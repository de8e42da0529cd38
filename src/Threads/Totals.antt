-- ===== src/Threads/Totals.antt =====
-- src/bench2.c: the totals of the two engines of worker threads.
use mathlib.Core.List.{Permᴰ}
use web_bench.Prelude.{
  ℕ, zero, suc, ◌+◌, ◌%◌, ◌<◌, ◌≡◌, ◌≢◌, refl, ap, ◌∙◌, sym, Bool, true, false, Option, none, some,
  List, [], ◌∷◌, ◌==◌, length, replicate, All, arith, Option-cases, inl, inr, option_both,
  some-injective, subst,
}
use web_bench.Prelude.Int.{ℤ, pos, negsuc, two_32}
use web_bench.Threads.{
  Counters, no_counts, heard, missed, count_reply, count_reply_no_racing, worker_loop, bench_worker,
  bench_worker_no_racing, add_counters, add_all, run_threads, bench, bench_with_no_racing,
}

abbrev sum : (Counters → ℕ) → List Counters → ℕ
sum f [] = 0
sum f (c ∷ cs) = f c + sum f cs

counters-eq : (a b : Counters) → a.speed ≡ b.speed → a.failed ≡ b.failed → a.bytes ≡ b.bytes → a ≡ b
counters-eq a b s f c = cc

record Small (t : Counters) : Type 0 where
  speed : t.speed < two_32
  failed : t.failed < two_32
  bytes : t.bytes < two_32

abbrev wrapped : Counters → List Counters → Counters
wrapped t cs = record {
  speed = (t.speed + sum (λ c. c.speed) cs) % two_32;
  failed = (t.failed + sum (λ c. c.failed) cs) % two_32;
  bytes = (t.bytes + sum (λ c. c.bytes) cs) % two_32;
}

add_counters-Small : (t c : Counters) → Small (add_counters t c)
add_counters-Small t c = record { speed = omega arith; failed = omega arith; bytes = omega arith }

add_all-wrapped : (t : Counters) (cs : List Counters) → Small t → add_all t cs ≡ wrapped t cs
unfolding add_all
add_all-wrapped t [] h =
    counters-eq t (wrapped t []) (omega (arith, h.speed)) (omega (arith, h.failed))
      (omega (arith, h.bytes))
add_all-wrapped t (c ∷ cs) h =
    add_all-wrapped (add_counters t c) cs (add_counters-Small t c)
    ∙ counters-eq (wrapped (add_counters t c) cs) (wrapped t (c ∷ cs)) (omega arith) (omega arith)
        (omega arith)

sum-Permᴰ : (f : Counters → ℕ) (xs ys : List Counters) → Permᴰ xs ys → sum f xs ≡ sum f ys
sum-Permᴰ f xs ys Permᴰ.nil = refl
sum-Permᴰ f (a ∷ xs) (b ∷ ys) (Permᴰ.cons e p) = omega (arith, ap f e, sum-Permᴰ f xs ys p)
sum-Permᴰ f (a ∷ b ∷ xs) (a' ∷ b' ∷ ys) (Permᴰ.swap e e') = omega (arith, ap f e, ap f e')
sum-Permᴰ f xs zs (Permᴰ.trans {l₂ = ys} p q) = sum-Permᴰ f xs ys p ∙ sum-Permᴰ f ys zs q

add_all-Permᴰ : (xs ys : List Counters) → Permᴰ xs ys → add_all no_counts xs ≡ add_all no_counts ys
add_all-Permᴰ xs ys p =
    let small : Small no_counts = record {
      speed = omega arith;
      failed = omega arith;
      bytes = omega arith;
    } in
    add_all-wrapped no_counts xs small
    ∙ counters-eq (wrapped no_counts xs) (wrapped no_counts ys)
        (omega (arith, sum-Permᴰ (λ c. c.speed) xs ys p))
        (omega (arith, sum-Permᴰ (λ c. c.failed) xs ys p))
        (omega (arith, sum-Permᴰ (λ c. c.bytes) xs ys p))
    ∙ sym (add_all-wrapped no_counts ys small)

-- Whatever the order in which the workers get the mutex, each of them once, the totals are those of the order in which they were created.
pub bench-order :
    (malloc : Bool) (threads : List (Option (List ℤ))) (lock_order : List Counters → List Counters)
    → ((cs : List Counters) → Permᴰ (lock_order cs) cs)
    → bench malloc threads lock_order ≡ bench malloc threads (λ cs. cs)
unfolding bench
bench-order false threads lock_order p = refl
bench-order true threads lock_order p = elim (Option-cases (run_threads bench_worker threads)) [
  | inl e ↦ rw e refl
  | inr (cs, e) ↦ rw e (ap some (add_all-Permᴰ (lock_order cs) cs (p cs)))
]

-- A reply that is not 0.
abbrev pub IsNonzero : ℤ → Type 0
IsNonzero r = r ≢ pos 0

abbrev pub AllNonzero : List (Option (List ℤ)) → Type 0
AllNonzero [] = Unit
AllNonzero (none ∷ ts) = AllNonzero ts
AllNonzero (some replies ∷ ts) = All IsNonzero replies × AllNonzero ts

count_reply-no_racing :
    (c : Counters) (r : ℤ) → IsNonzero r → count_reply_no_racing c r ≡ count_reply c r
unfolding count_reply count_reply_no_racing
count_reply-no_racing c (pos zero) h = absurd (h refl)
count_reply-no_racing c (pos (suc n)) h =
    let test : (suc n == 0) ≡ false = ground arith in rw test refl
count_reply-no_racing c (negsuc n) h = refl

worker_loop-no_racing :
    (c : Counters) (replies : List ℤ)
    → All IsNonzero replies
    → worker_loop count_reply_no_racing c replies ≡ worker_loop count_reply c replies
unfolding worker_loop
worker_loop-no_racing c [] h = refl
worker_loop-no_racing c (r ∷ rs) h =
    ap (λ d. worker_loop count_reply_no_racing d rs) (count_reply-no_racing c r h.0)
    ∙ worker_loop-no_racing (count_reply c r) rs h.1

bench_worker-no_racing :
    (replies : List ℤ)
    → All IsNonzero replies
    → bench_worker_no_racing replies ≡ bench_worker replies
unfolding bench_worker bench_worker_no_racing
bench_worker-no_racing replies h = worker_loop-no_racing no_counts replies h

run_threads-no_racing :
    (threads : List (Option (List ℤ)))
    → AllNonzero threads
    → run_threads bench_worker_no_racing threads ≡ run_threads bench_worker threads
unfolding run_threads
run_threads-no_racing [] h = refl
run_threads-no_racing (none ∷ ts) h = refl
run_threads-no_racing (some replies ∷ ts) h =
    rw (run_threads-no_racing ts h.1) (elim (Option-cases (run_threads bench_worker ts)) [
      | inl e ↦ rw e refl
      | inr (cs, e) ↦ rw e (ap (λ c. some (c ∷ cs)) (bench_worker-no_racing replies h.0))
    ])

-- If no call of `communicate` returns 0, then the engine with the mutex and the one without shared counters give the same totals, or both none, whatever the order in which the workers get the mutex.
pub bench-no_racing :
    (malloc : Bool) (threads : List (Option (List ℤ))) (lock_order : List Counters → List Counters)
    → ((cs : List Counters) → Permᴰ (lock_order cs) cs)
    → AllNonzero threads
    → bench malloc threads lock_order ≡ bench_with_no_racing malloc threads
unfolding bench_with_no_racing bench
bench-no_racing malloc threads lock_order p h =
    bench-order malloc threads lock_order p ∙ rw (run_threads-no_racing threads h) refl

worker_loop-zero :
    (n : ℕ) (c d : Counters)
    → c.speed < two_32
    → d.failed < two_32
    → ((worker_loop count_reply c (replicate n (pos 0))).speed ≡ (c.speed + n) % two_32)
      × ((worker_loop count_reply c (replicate n (pos 0))).failed ≡ c.failed)
      × ((worker_loop count_reply_no_racing d (replicate n (pos 0))).speed ≡ d.speed)
      × ((worker_loop count_reply_no_racing d (replicate n (pos 0))).failed
          ≡ (d.failed + n) % two_32)
unfolding worker_loop count_reply count_reply_no_racing
worker_loop-zero zero c d s f = (omega arith, refl, refl, omega arith)
worker_loop-zero (suc n) c d s f =
    let (speed, failed, speed', failed') =
      worker_loop-zero n (heard c 0) (missed d) (omega arith) (omega arith) in
    (omega (arith, speed), failed, speed', omega (arith, failed'))

-- A worker whose `n` replies are all 0 counts them as responses in the engine with the mutex, and as failures in the other one, modulo 2 ^ 32.
pub bench_worker-zero :
    (n : ℕ)
    → ((bench_worker (replicate n (pos 0))).speed ≡ n % two_32)
      × ((bench_worker (replicate n (pos 0))).failed ≡ 0)
      × ((bench_worker_no_racing (replicate n (pos 0))).speed ≡ 0)
      × ((bench_worker_no_racing (replicate n (pos 0))).failed ≡ n % two_32)
unfolding bench_worker bench_worker_no_racing
bench_worker-zero n =
    let (speed, failed, speed', failed') =
      worker_loop-zero n no_counts no_counts (omega arith) (omega arith) in
    (omega (arith, speed), failed, speed', omega (arith, failed'))

-- How many replies all threads have had.
abbrev pub reply_count : List (Option (List ℤ)) → ℕ
reply_count [] = 0
reply_count (none ∷ ts) = reply_count ts
reply_count (some replies ∷ ts) = length replies + reply_count ts

worker_loop-counts :
    (c : Counters) (replies : List ℤ)
    → ((worker_loop count_reply c replies).speed + (worker_loop count_reply c replies).failed)
        % two_32
      ≡ (c.speed + c.failed + length replies) % two_32
unfolding worker_loop count_reply
worker_loop-counts c [] = omega arith
worker_loop-counts c (pos n ∷ rs) = omega (arith, worker_loop-counts (heard c n) rs)
worker_loop-counts c (negsuc n ∷ rs) = omega (arith, worker_loop-counts (missed c) rs)

bench_worker-counts :
    (replies : List ℤ)
    → ((bench_worker replies).speed + (bench_worker replies).failed) % two_32
      ≡ length replies % two_32
unfolding bench_worker
bench_worker-counts replies = omega (arith, worker_loop-counts no_counts replies)

abbrev counts : List Counters → ℕ
counts cs = sum (λ c. c.speed) cs + sum (λ c. c.failed) cs

abbrev CountsReplies : ℕ → Option (List Counters) → Type 0
CountsReplies n none = Unit
CountsReplies n (some cs) = counts cs % two_32 ≡ n % two_32

run_threads-counts :
    (threads : List (Option (List ℤ)))
    → CountsReplies (reply_count threads) (run_threads bench_worker threads)
unfolding run_threads
run_threads-counts [] = refl
run_threads-counts (none ∷ ts) = tt
run_threads-counts (some replies ∷ ts) =
    option_both (CountsReplies (length replies + reply_count ts)) (run_threads bench_worker ts) none
      (λ cs. some (bench_worker replies ∷ cs)) (λ e. tt)
      (λ cs e.
        let rest = subst (CountsReplies (reply_count ts)) e (run_threads-counts ts) in
        omega (arith, bench_worker-counts replies, rest))

-- If the engine with the mutex gives totals, its responses and its failures together are the replies of all threads, modulo 2 ^ 32, whatever the order in which the workers get the mutex.
pub bench-counts :
    (malloc : Bool) (threads : List (Option (List ℤ))) (lock_order : List Counters → List Counters)
    (total : Counters)
    → ((cs : List Counters) → Permᴰ (lock_order cs) cs)
    → bench malloc threads lock_order ≡ some total
    → (total.speed + total.failed) % two_32 ≡ reply_count threads % two_32
unfolding bench
bench-counts false threads lock_order total p h = cc
bench-counts true threads lock_order total p h =
    counted (run_threads bench_worker threads) (run_threads-counts threads)
      (sym (bench-order true threads lock_order p) ∙ h)
  where
    counted :
        (o : Option (List Counters))
        → CountsReplies (reply_count threads) o
        → (elim o [ none ↦ none | some cs ↦ some (add_all no_counts cs) ]) ≡ some total
        → (total.speed + total.failed) % two_32 ≡ reply_count threads % two_32
    counted none k e = cc
    counted (some cs) k e =
        let small : Small no_counts = record {
          speed = omega arith;
          failed = omega arith;
          bytes = omega arith;
        } in
        let w =
          sym (some-injective (add_all no_counts cs) total e)
          ∙ add_all-wrapped no_counts cs small in
        omega (arith, ap (λ (x : Counters). x.speed) w, ap (λ (x : Counters). x.failed) w, k)

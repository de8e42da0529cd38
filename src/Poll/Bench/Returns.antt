-- ===== src/Poll/Bench/Returns.antt =====
-- src/bench_poll.c: a run returns results, whatever the system answers.
use web_bench.Prelude.{
  ℕ, zero, suc, ◌*◌, ◌≤◌, ◌<◌, ◌≡◌, refl, ap, ◌∙◌, Bool, true, false, Option, none, some, List, [],
  ◌∷◌, length, ◌==◌, arith, Option-cases, Bool-cases, inl, inr, Outcome, done,
}
use web_bench.Prelude.Int.{pos, negsuc, is_nonneg, two_64}
use web_bench.Arguments.{Arguments}
use web_bench.Connection.{Connection, Answers, Events, max_connections}
use web_bench.Epoll.Socket.{Resolver}
use web_bench.Epoll.Bench.{World}
use web_bench.Poll.Setup.{PollFd, wanted, setup_connection_fdsets}
use web_bench.Poll.Setup.Spec.{clear, after_setup}
use web_bench.Poll.Bench.{
  Polled, ready, timeout, failure, Round, Next, continue, break, run_round, run_rounds, bitmap_size,
  connection_count, init_connections, Run, Finished, finish, bench_with, bench_poll,
}
use web_bench.Poll.Bench.Each.{poll_each}
use web_bench.Poll.Bench.Rounds.{world_of, run_round-refused, run_round-each, run_round-no_event}

pub length-after_setup :
    (resolve : ℕ → Resolver) (args : Arguments) (i : ℕ) (cs : List Connection)
    → length (after_setup resolve args i cs) ≡ length cs
unfolding after_setup
length-after_setup resolve args i [] = refl
length-after_setup resolve args i (c ∷ cs) =
    ground (arith, length-after_setup resolve args (suc i) cs)

length-poll_each :
    (resolve : ℕ → Resolver) (args : Arguments) (revents : PollFd → Events) (answers : ℕ → Answers)
    (i : ℕ) (ctx : Bool) (cs : List Connection)
    → length (poll_each resolve args revents answers i ctx cs).conns ≡ length cs
unfolding poll_each
length-poll_each resolve args revents answers i ctx [] = refl
length-poll_each resolve args revents answers i ctx (c ∷ cs) =
    elim (Option-cases (wanted c.state)) [
      | inl w ↦
          rw (w, poll_each) (ap suc (length-poll_each resolve args revents answers (suc i) ctx cs))
      | inr (events, w) ↦
          rw (w, poll_each) (ap suc (length-poll_each resolve args revents answers (suc i) _ cs))
    ]

-- A first descriptor that is negative makes the set-up fail at once.
pub run_round-closed :
    (args : Arguments) (size : ℕ) (c : Connection) (cs : List Connection) (ctx : Bool) (r : Round)
    → is_nonneg c.sockfd ≡ false
    → run_round args size (record { conns = c ∷ cs; ctx = ctx }) r
      ≡ done (continue (record { conns = c ∷ cs; ctx = ctx }))
unfolding run_round setup_connection_fdsets
run_round-closed args size c cs ctx r h = rw h refl

-- How a round ends: with the connections that it began with, as many as before.
abbrev Goes : Arguments → ℕ → World → Round → Type 0
Goes args size w r =
    (n : Next) × (run_round args size w r ≡ done n) × (length (world_of n).conns ≡ length w.conns)

module _ (args : Arguments) (size : ℕ) (fits : size * 8 < two_64) where
  opened_round :
      (c : Connection) (cs : List Connection) (ctx : Bool) (r : Round) (p : Polled)
      → r.poll ≡ p
      → length (c ∷ cs) ≤ size * 8
      → is_nonneg c.sockfd ≡ true
      → clear 0 (c ∷ cs) ≡ true
      → Goes args size (record { conns = c ∷ cs; ctx = ctx }) r
  opened_round c cs ctx r timeout p room opened free =
      let (n, e, w) = run_round-no_event args size c cs ctx r fits room opened (inl p) in
      (n, e, ap (λ (w : World). length w.conns) w ∙ length-after_setup r.resolve args 0 (c ∷ cs))
  opened_round c cs ctx r failure p room opened free =
      let (n, e, w) = run_round-no_event args size c cs ctx r fits room opened (inr p) in
      (n, e, ap (λ (w : World). length w.conns) w ∙ length-after_setup r.resolve args 0 (c ∷ cs))
  opened_round c cs ctx r (ready revents) p room opened free = (
    continue (poll_each r.resolve args revents r.answers 0 ctx (c ∷ cs)),
    run_round-each args size c cs ctx r fits room opened revents free p,
    length-poll_each r.resolve args revents r.answers 0 ctx (c ∷ cs),
  )

  any_round :
      (w : World) (r : Round) → 0 < length w.conns → length w.conns ≤ size * 8 → Goes args size w r
  any_round w r some_conn room = go w.conns some_conn room
    where
      go :
          (cs : List Connection)
          → 0 < length cs
          → length cs ≤ size * 8
          → Goes args size (record { conns = cs; ctx = w.ctx }) r
      go [] k room = absurd (omega arith)
      go (c ∷ cs) k room = elim (Bool-cases (is_nonneg c.sockfd)) [
        | inr closed ↦ (
          continue (record { conns = c ∷ cs; ctx = w.ctx }),
          run_round-closed args size c cs w.ctx r closed,
          refl,
        )
        | inl opened ↦ elim (Bool-cases (clear 0 (c ∷ cs))) [
          | inl free ↦ opened_round c cs w.ctx r r.poll refl room opened free
          | inr refused ↦ (
            continue (record { conns = after_setup r.resolve args 0 (c ∷ cs); ctx = w.ctx }),
            run_round-refused args size c cs w.ctx r fits room opened refused,
            length-after_setup r.resolve args 0 (c ∷ cs),
          )
        ]
      ]

  -- The rounds that follow, unless the loop is left.
  after_round :
      (n : Next) (rs : List Round) (w' : World)
      → run_rounds args size (world_of n) rs ≡ done w'
      → length w'.conns ≡ length (world_of n).conns
      → (w'' : World) × ((elim n [ continue w ↦ run_rounds args size w rs | break w ↦ done w ])
          ≡ done w'')
        × (length w''.conns ≡ length (world_of n).conns)
  after_round (continue w) rs w' e l = (w', e, l)
  after_round (break w) rs w' e l = (w, refl, refl)

  run_rounds_return :
      (w : World) (rs : List Round)
      → 0 < length w.conns
      → length w.conns ≤ size * 8
      → (w' : World) × (run_rounds args size w rs ≡ done w') × (length w'.conns ≡ length w.conns)
  unfolding run_rounds
  run_rounds_return w [] k room = (w, refl, refl)
  run_rounds_return w (r ∷ rs) k room =
      let (n, e, l) = any_round w r k room in
      let (w', run, l') = run_rounds_return (world_of n) rs (omega (arith, l)) (omega (arith, l)) in
      let (w'', goes, l'') = after_round n rs w' run l' in (w'', rw e goes, l'' ∙ l)

length-init_connections :
    (resolve : ℕ → Resolver) (args : Arguments) (body : List ℕ) (i n : ℕ)
    → length (init_connections resolve args body i n) ≡ n
unfolding init_connections
length-init_connections resolve args body i zero = refl
length-init_connections resolve args body i (suc n) =
    ap suc (length-init_connections resolve args body (suc i) n)

-- The bitmap has a bit for each connection.
bitmap_size_fits :
    (n : ℕ) → n ≤ max_connections → (n ≤ bitmap_size n * 8) × (bitmap_size n * 8 < two_64)
unfolding bitmap_size
bitmap_size_fits n h = (ground arith, ground arith)

-- The connections at the start.
abbrev pub start : Run → Arguments → List ℕ → ℕ → World
start run args body n = record { conns = init_connections run.resolve args body 0 n; ctx = false }

pub rounds_return :
    (run : Run) (args : Arguments) (body : List ℕ) (n : ℕ)
    → 0 < n
    → n ≤ max_connections
    → (w : World) × (run_rounds args (bitmap_size n) (start run args body n) run.rounds ≡ done w)
      × (length w.conns ≡ n)
rounds_return run args body n k h =
    let (fits, small) = bitmap_size_fits n h in
    let count = length-init_connections run.resolve args body 0 n in
    let (w, e, l) =
      run_rounds_return args (bitmap_size n) small (start run args body n) run.rounds
        (omega (arith, count)) (omega (arith, count)) in
    (w, e, l ∙ count)

bench_with-rounds :
    (run : Run) (args : Arguments) (body : List ℕ) (n : ℕ) (w : World)
    → run.malloc ≡ true
    → 0 < n
    → run_rounds args (bitmap_size n) (start run args body n) run.rounds ≡ done w
    → bench_with run args body n ≡ done (some (finish args w))
unfolding bench_with
bench_with-rounds run args body n w m k e =
    let some_conn : (n == 0) ≡ false = ground arith in rw (m, some_conn, e) refl

bench_poll-clients :
    (run : Run) (args : Arguments) (body : List ℕ) (n : ℕ)
    → args.clients ≡ pos n
    → bench_poll run args body ≡ bench_with run args body (connection_count n)
unfolding bench_poll
bench_poll-clients run args body n c =
    ap
      (λ z. elim z as (λ _. Outcome (Option Finished)) [
        | pos m ↦ bench_with run args body (connection_count m)
        | negsuc m ↦ done none
      ])
      c

pub bench_poll-rounds :
    (run : Run) (args : Arguments) (body : List ℕ) (n : ℕ) (w : World)
    → args.clients ≡ pos n
    → run.malloc ≡ true
    → 0 < n
    → run_rounds args
        (bitmap_size (connection_count n))
        (start run args body (connection_count n))
        run.rounds
      ≡ done w
    → bench_poll run args body ≡ done (some (finish args w))
bench_poll-rounds run args body n w c m k e =
    bench_poll-clients run args body n c
    ∙ bench_with-rounds run args body (connection_count n) w m (ground arith) e

-- With at least one client and the memory for the connections, `bench_poll` returns results: whatever the system answers in any number of rounds, nothing is read or written outside the bitmap, the array for `poll` or the connections, and the results are those of as many connections as there are clients, 1000 at most.
pub bench_poll-returns :
    (run : Run) (args : Arguments) (body : List ℕ) (n : ℕ)
    → args.clients ≡ pos n
    → 0 < n
    → run.malloc ≡ true
    → (w : World) × (bench_poll run args body ≡ done (some (finish args w)))
      × (length w.conns ≡ connection_count n)
bench_poll-returns run args body n c k m =
    let (w, e, l) =
      rounds_return run args body (connection_count n) (ground arith) (ground arith) in
    (w, bench_poll-rounds run args body n w c m k e, l)

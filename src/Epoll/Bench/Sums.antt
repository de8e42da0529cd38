-- ===== src/Epoll/Bench/Sums.antt =====
-- src/bench_epoll.c: the results that `bench_epoll` prints.
use web_bench.Prelude.{
  ℕ, zero, suc, ◌+◌, ◌%◌, ◌≡◌, ◌≢◌, ◌<◌, refl, ap, ◌∙◌, sym, Bool, false, some, List, [], ◌∷◌,
  arith, inl, inr, All, done, >>=-eq-done, Bool-cases,
}
use web_bench.Prelude.Int.{ℤ, add_int, two_32, is_nonneg}
use web_bench.Arguments.{Arguments}
use web_bench.Connection.{Connection, ConnState, receiving, Answers, Events}
use web_bench.Epoll.Ready.{handle_ready_connection}
use web_bench.Epoll.Ready.Edges.{
  Edge, stay, broken, connect_plain, connect_tls, connect_proxy, ask, tunnel, shake, await, forget,
  finish, handle_ready_connection-Edge,
}
use web_bench.Epoll.Ready.Counters.{handle_ready_connection-Counted}
use web_bench.Epoll.Ready.Keeps.{handle_ready_connection-Keeps}
use web_bench.Epoll.Socket.{
  Resolver, init_connection, zero_connection, cleanup_connection, allocate_socket,
}
use web_bench.Epoll.Bench.{
  World, Round, Report, Totals, Run, Finished, summarize, init_connections, num_connections,
  run_rounds, handle_report, bench_epoll, finish as finish_run,
}
use web_bench.Epoll.Bench.Invariant.{run_rounds-All, About, RoundsObey, ReportsObey, set_up}

abbrev pub sum : (Connection → ℕ) → List Connection → ℕ
sum f [] = 0
sum f (c ∷ cs) = f c + sum f cs

-- The loop that adds up the counters, started from any counters.
summarize-sum :
    (t : Totals) (cs : List Connection)
    → t.failed < two_32
    → t.speed < two_32
    → t.bytes < two_32
    → ((summarize t cs).failed ≡ (t.failed + sum (λ c. c.failed) cs) % two_32)
      × ((summarize t cs).speed ≡ (t.speed + sum (λ c. c.speed) cs) % two_32)
      × ((summarize t cs).bytes ≡ (t.bytes + sum (λ c. c.bytes) cs) % two_32)
unfolding summarize
summarize-sum t [] f s b = (omega arith, omega arith, omega arith)
summarize-sum t (c ∷ cs) f s b =
    let (f', s', b') =
      summarize-sum
        (record {
          failed = add_int t.failed c.failed;
          speed = add_int t.speed c.speed;
          bytes = add_int t.bytes c.bytes;
        })
        cs (omega arith) (omega arith) (omega arith) in
    (omega (arith, f'), omega (arith, s'), omega (arith, b'))

-- A property of every connection that is set up at the start.
pub init_connections-All :
    (P : Connection → Type 0) (resolve : ℕ → Resolver) (args : Arguments) (body : List ℕ)
    → ((r : Resolver) → P (allocate_socket r args (init_connection args body zero_connection)).conn)
    → (i n : ℕ) → All P (init_connections resolve args body i n)
unfolding init_connections
init_connections-All P resolve args body h i zero = tt
init_connections-All P resolve args body h i (suc n) =
    (h (resolve i), init_connections-All P resolve args body h (suc i) n)

-- A connection with the force flag: nothing is ever counted.
pub record Unheard (c : Connection) : Type 0 where
  pub force : c.force_flag ≢ 0
  pub state : c.state ≢ receiving
  pub speed : c.speed ≡ 0
  pub bytes : c.bytes ≡ 0

Edge-not_receiving :
    {s : Bool} {f : ℕ} {a b : ConnState} → Edge s f a b → f ≢ 0 → a ≢ receiving → b ≢ receiving
Edge-not_receiving stay f h = h
Edge-not_receiving broken f h = λ e. cc
Edge-not_receiving (connect_plain e) f h = λ e. cc
Edge-not_receiving (connect_tls e) f h = λ e. cc
Edge-not_receiving (connect_proxy e) f h = λ e. cc
Edge-not_receiving ask f h = λ e. cc
Edge-not_receiving tunnel f h = λ e. cc
Edge-not_receiving shake f h = λ e. cc
Edge-not_receiving (await e) f h = absurd (f e)
Edge-not_receiving (forget e) f h = λ e. cc
Edge-not_receiving finish f h = λ e. cc

handle_ready_connection-Unheard :
    (args : Arguments) (epfd : ℤ) (a : Answers) (ctx : Bool) (c : Connection) (ev : Events)
    → Unheard c
    → Unheard (handle_ready_connection args a ctx c ev epfd).conn
handle_ready_connection-Unheard args epfd a ctx c ev u =
    let k = handle_ready_connection-Keeps args a ctx c ev epfd in
    let e =
      Edge-not_receiving (handle_ready_connection-Edge args a ctx c ev epfd) u.force u.state in
    let f : (handle_ready_connection args a ctx c ev epfd).conn.force_flag ≢ 0 =
      λ z. u.force (sym k.force_flag ∙ z) in
    elim (handle_ready_connection-Counted args a ctx c ev epfd) [
      | inl q ↦ record {
        force = f;
        state = e;
        speed = q.speed ∙ u.speed;
        bytes = q.bytes ∙ u.bytes;
      }
      | inr (inl q) ↦ record {
        force = f;
        state = e;
        speed = q.speed ∙ u.speed;
        bytes = q.bytes ∙ u.bytes;
      }
      | inr (inr q) ↦ absurd (u.state q.before)
    ]

restart-Unheard :
    (args : Arguments) (resolve : Resolver) (c : Connection)
    → Unheard c
    → Unheard (allocate_socket resolve args (cleanup_connection c).conn).conn
unfolding allocate_socket cleanup_connection
restart-Unheard args resolve c u =
    let f = u.force in let s = u.speed in let b = u.bytes in ground arith

init-Unheard :
    (args : Arguments) (body : List ℕ)
    → args.force ≢ 0
    → (r : Resolver)
    → Unheard (allocate_socket r args (init_connection args body zero_connection)).conn
unfolding allocate_socket init_connection
init-Unheard args body h r = ground arith

-- The connections at the start.
abbrev pub start : Run → Arguments → List ℕ → ℕ → World
start run args body n = record { conns = init_connections run.resolve args body 0 n; ctx = false }

-- A run that prints results has done its rounds.
pub record Ran (run : Run) (args : Arguments) (body : List ℕ) (f : Finished) : Type 0 where
  pub clients : ℕ
  pub counted : num_connections args.clients ≡ done clients
  pub world : World
  pub rounds :
      run_rounds args run.epoll_create (start run args body clients) run.rounds ≡ done world
  pub finished : f ≡ finish_run args world

pub bench_epoll-Ran :
    (run : Run) (args : Arguments) (body : List ℕ) (f : Finished)
    → bench_epoll run args body ≡ done (some f)
    → Ran run args body f
unfolding bench_epoll
bench_epoll-Ran run args body f h =
    let (n, counted, rest) = >>=-eq-done (num_connections args.clients) _ h in
    elim (Bool-cases run.calloc) [
      | inr c ↦ absurd (ground arith)
      | inl c ↦ elim (Bool-cases (is_nonneg run.epoll_create)) [
        | inr d ↦ absurd (ground arith)
        | inl d ↦
            let (w, rounds, fin) =
              >>=-eq-done (run_rounds args run.epoll_create (start run args body n) run.rounds)
                (λ w. done (some (finish_run args w))) (rw (c, d) at rest) in
            record { clients = n; counted = counted; world = w; rounds = rounds; finished = cc }
      ]
    ]

finish-sum :
    (args : Arguments) (w : World)
    → ((finish_run args w).totals.failed ≡ sum (λ c. c.failed) w.conns % two_32)
      × ((finish_run args w).totals.speed ≡ sum (λ c. c.speed) w.conns % two_32)
      × ((finish_run args w).totals.bytes ≡ sum (λ c. c.bytes) w.conns % two_32)
unfolding finish_run
finish-sum args w =
    let (failed, speed, bytes) =
      summarize-sum (record { failed = 0; speed = 0; bytes = 0 }) w.conns (omega arith)
        (omega arith) (omega arith) in
    (omega (arith, failed), omega (arith, speed), omega (arith, bytes))

-- If a run prints results, each of the three counters printed is the sum of that counter over all connections, as they are after the rounds, modulo 2 ^ 32.
pub bench_epoll-totals :
    (run : Run) (args : Arguments) (body : List ℕ) (f : Finished)
    → bench_epoll run args body ≡ done (some f)
    → (n : ℕ) × (w : World) × (num_connections args.clients ≡ done n)
      × (run_rounds args run.epoll_create (start run args body n) run.rounds ≡ done w)
      × (f.totals.failed ≡ sum (λ c. c.failed) w.conns % two_32)
      × (f.totals.speed ≡ sum (λ c. c.speed) w.conns % two_32)
      × (f.totals.bytes ≡ sum (λ c. c.bytes) w.conns % two_32)
bench_epoll-totals run args body f h =
    let r = bench_epoll-Ran run args body f h in
    let (failed, speed, bytes) = finish-sum args r.world in
    (
      r.clients,
      r.world,
      r.counted,
      r.rounds,
      ap (λ (x : Finished). x.totals.failed) r.finished ∙ failed,
      ap (λ (x : Finished). x.totals.speed) r.finished ∙ speed,
      ap (λ (x : Finished). x.totals.bytes) r.finished ∙ bytes,
    )

-- Nothing is asked of the answers.
reports_any :
    (args : Arguments) (epfd : ℤ) (w : World) (rs : List Report)
    → ReportsObey (About (λ a c. Unit)) args epfd w rs
reports_any args epfd w [] = tt
reports_any args epfd w (r ∷ rs) =
    (λ c e. tt, reports_any args epfd (handle_report args epfd w r) rs)

pub rounds_any :
    (args : Arguments) (epfd : ℤ) (w : World) (rs : List Round)
    → RoundsObey (About (λ a c. Unit)) args epfd w rs
rounds_any args epfd w [] = tt
rounds_any args epfd w (r ∷ rs) = (
  λ reports e. reports_any args epfd (set_up args epfd w r) reports,
  λ w' e. rounds_any args epfd w' rs,
)

Unheard-counters :
    (cs : List Connection)
    → All Unheard cs
    → (sum (λ c. c.speed) cs ≡ 0) × (sum (λ c. c.bytes) cs ≡ 0)
Unheard-counters [] h = (refl, refl)
Unheard-counters (c ∷ cs) h =
    let u = h.0 in
    let (s, b) = Unheard-counters cs h.1 in (omega (arith, u.speed, s), omega (arith, u.bytes, b))

-- With the force flag, whatever the system answers and however long the run is, the results that are printed show 0 responses and 0 bytes: a request that is sent whole completes its connection without being counted.
pub bench_epoll-force :
    (run : Run) (args : Arguments) (body : List ℕ) (f : Finished)
    → args.force ≢ 0
    → bench_epoll run args body ≡ done (some f)
    → (f.totals.speed ≡ 0) × (f.totals.bytes ≡ 0)
bench_epoll-force run args body f force h =
    let r = bench_epoll-Ran run args body f h in
    let all =
      run_rounds-All args run.epoll_create Unheard (λ a c. Unit)
        (λ a ctx c ev u q. handle_ready_connection-Unheard args run.epoll_create a ctx c ev u)
        (restart-Unheard args) (start run args body r.clients) r.world run.rounds
        (init_connections-All Unheard run.resolve args body (init-Unheard args body force) 0
          r.clients)
        (rounds_any args run.epoll_create _ run.rounds) r.rounds in
    let (no_speed, no_bytes) = Unheard-counters r.world.conns all in
    let (failed, speed, bytes) = finish-sum args r.world in
    (
      ap (λ (x : Finished). x.totals.speed) r.finished ∙ omega (arith, speed, no_speed),
      ap (λ (x : Finished). x.totals.bytes) r.finished ∙ omega (arith, bytes, no_bytes),
    )

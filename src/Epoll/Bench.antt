-- ===== src/Epoll/Bench.antt =====
-- src/bench_epoll.c: `bench_epoll`, the loop over rounds of registering, waiting and handling.
--
-- The loop runs while the time is not up: the rounds that begin in time are a list, each with what
-- the system does in it. An exit of the process is an outcome.
pub mod Invariant
pub mod Sums
pub mod Safe
pub mod Closed
use web_bench.Prelude.{
  ℕ, zero, suc, Bool, false, not, ◌&&◌, Option, none, some, List, [], ◌∷◌, ◌++◌, ltb, ◌==◌,
  if◌then◌else◌, get_elem?, set, Outcome, done, exit, fault, ◌>>=◌,
}
use web_bench.Prelude.Int.{ℤ, pos, negsuc, is_nonneg, is_zero, add_int}
use web_bench.Arguments.{Arguments, protocol_https}
use web_bench.Connection.{Connection, Events, Answers, max_connections}
use web_bench.Epoll.Ready.{handle_ready_connection}
use web_bench.Epoll.Socket.{
  Resolver, zero_connection, init_connection, allocate_socket, cleanup_connection, Release,
}
use web_bench.Epoll.Setup.{SetupEnv, setup_connection_to_epoll_instance}

-- An event that `epoll_wait` reports: the index of the connection that was registered with it.
pub record Report : Type 0 where
  pub index : ℕ
  pub events : Events
  pub answers : Answers

-- A round: `none` for an error of `epoll_wait`.
pub record Round : Type 0 where
  pub setup : SetupEnv
  pub wait : Option (List Report)

-- The connections and the global SSL context.
pub record World : Type 0 where
  pub conns : List Connection
  pub ctx : Bool

-- A pointer of an event leads to its connection.
unfoldable pub handle_report : Arguments → ℤ → World → Report → World
handle_report args epfd w r = elim (get_elem? w.conns r.index) [
  | none ↦ w
  | some c ↦
      let h = handle_ready_connection args r.answers w.ctx c r.events epfd in
      record { conns = set w.conns r.index h.conn; ctx = h.ctx }
]

unfoldable pub handle_reports : Arguments → ℤ → World → List Report → World
handle_reports args epfd w [] = w
handle_reports args epfd w (r ∷ rs) = handle_reports args epfd (handle_report args epfd w r) rs

-- How a round goes on: the loop continues, or an error of `epoll_wait` breaks it.
pub data Next : Type 0 where
  continue : World → Next
  break : World → Next

unfoldable pub wait_and_handle : Arguments → ℤ → World → Option (List Report) → Next
wait_and_handle args epfd w none = break w
wait_and_handle args epfd w (some reports) = continue (handle_reports args epfd w reports)

unfoldable pub run_round : Arguments → ℤ → World → Round → Outcome Next
run_round args epfd w r =
    let s = setup_connection_to_epoll_instance r.setup args w.conns epfd in
    let w' = record w { conns = s.conns } in
    if not (is_nonneg s.count)
    then exit 1
    else if is_zero s.count
    then done (continue w')
    else done (wait_and_handle args epfd w' r.wait)

unfoldable pub run_rounds : Arguments → ℤ → World → List Round → Outcome World
run_rounds args epfd w [] = done w
run_rounds args epfd w (r ∷ rs) = run_round args epfd w r >>= λ n. elim n [
  | continue w' ↦ run_rounds args epfd w' rs
  | break w' ↦ done w'
]

-- The results that are printed at the end.
pub record Totals : Type 0 where
  pub failed : ℕ
  pub speed : ℕ
  pub bytes : ℕ

unfoldable pub summarize : Totals → List Connection → Totals
summarize t [] = t
summarize t (c ∷ cs) =
    summarize
      (record {
        failed = add_int t.failed c.failed;
        speed = add_int t.speed c.speed;
        bytes = add_int t.bytes c.bytes;
      })
      cs

-- The loop that initialises connection after connection, the first at index `i`.
unfoldable pub init_connections : (ℕ → Resolver) → Arguments → List ℕ → ℕ → ℕ → List Connection
init_connections resolve args body i zero = []
init_connections resolve args body i (suc n) =
    (allocate_socket (resolve i) args (init_connection args body zero_connection)).conn
    ∷ init_connections resolve args body (suc i) n

-- The number of connections. A variable-length array of `clients` elements is declared before, so
-- a number that is not positive is a fault; the stack that a large one takes is not modelled.
unfoldable pub num_connections : ℤ → Outcome ℕ
num_connections (pos n) =
    if n == 0 then fault else done (if ltb max_connections n then max_connections else n)
num_connections (negsuc n) = fault

-- What the system does for a whole run: whether `calloc` succeeds, the descriptor of
-- `epoll_create1`, the addresses at the start and the rounds.
pub record Run : Type 0 where
  pub calloc : Bool
  pub resolve : ℕ → Resolver
  pub epoll_create : ℤ
  pub rounds : List Round

-- What every connection still holds is released.
unfoldable pub release_all : List Connection → List Release
release_all [] = []
release_all (c ∷ cs) = (cleanup_connection c).calls ++ release_all cs

-- The results, what was released at the end, and whether `free_ssl_lib` has freed the SSL context.
pub record Finished : Type 0 where
  pub totals : Totals
  pub released : List Release
  pub ctx_freed : Bool

unfoldable pub finish : Arguments → World → Finished
finish args w = record {
  totals = summarize (record { failed = 0; speed = 0; bytes = 0 }) w.conns;
  released = release_all w.conns;
  ctx_freed = args.protocol == protocol_https && w.ctx;
}

-- `none` where the function returns before it has results.
unfoldable pub bench_epoll : Run → Arguments → List ℕ → Outcome (Option Finished)
bench_epoll run args body = num_connections args.clients >>= λ n.
    if not run.calloc
    then done none
    else if not (is_nonneg run.epoll_create)
    then exit 1
    else (run_rounds args run.epoll_create
          (record { conns = init_connections run.resolve args body 0 n; ctx = false }) run.rounds
        >>= λ w. done (some (finish args w)))

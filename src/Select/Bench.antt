-- ===== src/Select/Bench.antt =====
-- src/bench_select.c: `bench_select`, the loop over rounds of setting up, selecting and handling.
--
-- The loop runs while the time is not up: the rounds that begin in time are a list, each with what
-- the system does in it. An exit of the process is an outcome.
pub mod Limits
use web_bench.Prelude.{
  ℕ, zero, suc, ◌-◌, Bool, false, not, ◌&&◌, Option, none, some, List, [], ◌∷◌, ◌++◌, ltb, leb,
  ◌==◌, if◌then◌else◌, Outcome, done, exit, fault, ◌>>=◌,
}
use web_bench.Prelude.Int.{ℤ, pos, negsuc}
use web_bench.Arguments.{Arguments, protocol_https}
use web_bench.Connection.{ConnState, completed, error, Connection, Answers}
use web_bench.Epoll.Socket.{Resolver, Release, cleanup_connection}
use web_bench.Epoll.Bench.{World, Totals, summarize}
use web_bench.Poll.Socket.{init_connection}
use web_bench.Select.Socket.{allocate_socket}
use web_bench.Select.Sets.{fd_setsize, FdSets, setup_connection_fdsets}
use web_bench.Select.Ready.{handle_ready_connection}

-- A connection that is over is cleaned up and gets a new socket.
unfoldable pub restart : Resolver → Arguments → ConnState → Connection → Outcome Connection
restart resolve args completed conn = allocate_socket resolve args (cleanup_connection conn).conn
restart resolve args error conn = allocate_socket resolve args (cleanup_connection conn).conn
restart resolve args _ conn = done conn

pub record SetUp : Type 0 where
  pub conns : List Connection
  pub sets : FdSets

-- The loop that restarts connections and enters them in the sets, from index `i` on.
unfoldable pub setup_all : (ℕ → Resolver) → Arguments → ℕ → List Connection → FdSets → Outcome SetUp
setup_all resolve args i [] sets = done (record { conns = []; sets = sets })
setup_all resolve args i (c ∷ cs) sets = restart (resolve i) args c.state c >>= λ c'.
    setup_connection_fdsets c' c'.sockfd sets >>= λ sets'.
    setup_all resolve args (suc i) cs sets' >>= λ rest.
    done (record rest { conns = c' ∷ rest.conns })

-- `select`: nothing is ready, an error included, or which descriptors are.
pub data Selected : Type 0 where
  none_ready : Selected
  ready : (ℕ → Bool) → (ℕ → Bool) → Selected

-- The members that are ready stay in the set.
unfoldable pub still : (ℕ → Bool) → List ℕ → List ℕ
still keeps [] = []
still keeps (fd ∷ set) = if keeps fd then fd ∷ still keeps set else still keeps set

-- A round: the addresses and the answers that the system gives for the connection at each index, and
-- the answer of `select`.
pub record Round : Type 0 where
  pub resolve : ℕ → Resolver
  pub select : Selected
  pub answers : ℕ → Answers

-- The loop over all connections, from index `i` on.
unfoldable pub handle_from :
    Arguments → (ℕ → Answers) → List ℕ → List ℕ → ℕ → Bool → List Connection → Outcome World
handle_from args answers read write i ctx [] = done (record { conns = []; ctx = ctx })
handle_from args answers read write i ctx (c ∷ cs) =
    handle_ready_connection args (answers i) ctx c read write >>= λ h.
    handle_from args answers read write (suc i) h.ctx cs >>= λ w.
    done (record w { conns = h.conn ∷ w.conns })

unfoldable pub select_and_handle :
    Arguments → (ℕ → Answers) → Bool → SetUp → Selected → Outcome World
select_and_handle args answers ctx s none_ready = done (record { conns = s.conns; ctx = ctx })
select_and_handle args answers ctx s (ready readable writable) =
    handle_from args answers (still readable s.sets.read) (still writable s.sets.write) 0 ctx
      s.conns

-- The connections, the SSL context, and the greatest descriptor so far, which is never set back.
pub record Loop : Type 0 where
  pub world : World
  pub max_fd : ℕ

unfoldable pub run_round : Arguments → Loop → Round → Outcome Loop
run_round args l r =
    setup_all r.resolve args 0 l.world.conns (record { read = []; write = []; max_fd = l.max_fd })
    >>= λ s.
        if ltb 0 s.sets.max_fd
        then (select_and_handle args r.answers l.world.ctx s r.select >>= λ w.
            done (record { world = w; max_fd = s.sets.max_fd }))
        else done (record {
          world = record { conns = s.conns; ctx = l.world.ctx };
          max_fd = s.sets.max_fd;
        })

unfoldable pub run_rounds : Arguments → Loop → List Round → Outcome Loop
run_rounds args l [] = done l
run_rounds args l (r ∷ rs) = run_round args l r >>= λ l'. run_rounds args l' rs

-- The loop that initialises connection after connection, the first at index `i`.
unfoldable pub init_connections :
    (ℕ → Resolver) → Arguments → List ℕ → ℕ → ℕ → Outcome (List Connection)
init_connections resolve args body i zero = done []
init_connections resolve args body i (suc n) =
    allocate_socket (resolve i) args (init_connection args body) >>= λ c.
    init_connections resolve args body (suc i) n >>= λ cs. done (c ∷ cs)

-- The number of connections.
abbrev pub connection_count : ℕ → ℕ
connection_count clients = if leb fd_setsize clients then fd_setsize - 1 else clients

-- What the system does for a whole run: whether `malloc` succeeds for a number of connections that is
-- not negative, the addresses at the start and the rounds.
pub record Run : Type 0 where
  pub malloc : Bool
  pub resolve : ℕ → Resolver
  pub rounds : List Round

unfoldable pub release_all : List Connection → List Release
release_all [] = []
release_all (c ∷ cs) = (cleanup_connection c).calls ++ release_all cs

-- The results, what was released at the end, and whether `cleanup_ssl` has freed the SSL context.
pub record Finished : Type 0 where
  pub totals : Totals
  pub released : List Release
  pub ctx_freed : Bool

unfoldable pub finish : Arguments → World → Finished
finish args w = record {
  totals = summarize (record { failed = 0; speed = 0; bytes = 0 }) w.conns;
  released = release_all w.conns;
  ctx_freed = args.protocol == protocol_https && w.ctx;
}

unfoldable pub bench_with : Run → Arguments → List ℕ → ℕ → Outcome (Option Finished)
bench_with run args body n =
    if not run.malloc
    then done none
    else (init_connections run.resolve args body 0 n >>= λ conns.
        run_rounds args (record { world = record { conns = conns; ctx = false }; max_fd = 0 })
          run.rounds
        >>= λ l. done (some (finish args l.world)))

-- `none` where the function returns before it has results: a negative number of clients asks
-- `malloc` for more than any object may have, which it refuses.
unfoldable pub bench_select : Run → Arguments → List ℕ → Outcome (Option Finished)
bench_select run args body = elim args.clients [
  | pos n ↦ bench_with run args body (connection_count n)
  | negsuc n ↦ done none
]

-- ===== src/Poll/Bench.antt =====
-- src/bench_poll.c: `bench_poll`, the loop over rounds of setting up, polling and handling.
--
-- The loop runs while the time is not up: the rounds that begin in time are a list, each with what
-- the system does in it.
pub mod Each
pub mod Rounds
pub mod Blocked
pub mod Returns
pub mod Invariant
pub mod Safe
use web_bench.Prelude.{
  ℕ, suc, ◌+◌, ◌/◌, ◌%◌, Bool, true, false, not, ◌&&◌, Option, none, some, List, [], ◌∷◌, ◌++◌, ltb,
  leb, ◌==◌, if◌then◌else◌, replicate, length, Outcome, done, exit, fault, ◌>>=◌, zero,
}
use web_bench.Prelude.Int.{ℤ, pos, negsuc, is_positive, is_zero}
use web_bench.Arguments.{Arguments, protocol_https}
use web_bench.Connection.{Connection, Events, Answers, max_connections}
use web_bench.Bitmap.{get_bitmap}
use web_bench.Epoll.Socket.{Resolver, Release}
use web_bench.Epoll.Bench.{World, Totals, summarize}
use web_bench.Poll.Socket.{init_connection, allocate_socket, cleanup_connection}
use web_bench.Poll.Setup.{PollFd, SetupResult, setup_connection_fdsets}
use web_bench.Poll.Ready.{handle_ready_connection}

-- `poll`: an error, no event within the time, or the events of each entry.
pub data Polled : Type 0 where
  failure : Polled
  timeout : Polled
  ready : (PollFd → Events) → Polled

-- A round: the addresses and the answers that the system gives for the connection at each index, and
-- the answer of `poll`.
pub record Round : Type 0 where
  pub resolve : ℕ → Resolver
  pub poll : Polled
  pub answers : ℕ → Answers

-- The loop over the connections, from index `i` on: a connection whose bit is set has the next entry
-- of the array. An entry behind the last one is a fault.
unfoldable pub handle_from :
    Arguments
    → (PollFd → Events)
    → (ℕ → Answers)
    → ℕ
    → List ℕ
    → ℕ
    → Bool
    → List Connection
    → List PollFd
    → Outcome World
handle_from args revents answers size bitmap i ctx [] entries =
    done (record { conns = []; ctx = ctx })
handle_from args revents answers size bitmap i ctx (c ∷ cs) entries =
    get_bitmap i (some bitmap) (pos size) >>= λ bit. elim (is_zero bit) [
      | true ↦ handle_from args revents answers size bitmap (suc i) ctx cs entries >>= λ w.
          done (record w { conns = c ∷ w.conns })
      | false ↦ elim entries [
        | [] ↦ fault
        | entry ∷ rest ↦
            let h = handle_ready_connection args (answers i) ctx c (revents entry) in
            handle_from args revents answers size bitmap (suc i) h.ctx cs rest >>= λ w.
            done (record w { conns = h.conn ∷ w.conns })
      ]
    ]

-- How a round goes on: the loop continues, or an error of `poll` breaks it.
pub data Next : Type 0 where
  continue : World → Next
  break : World → Next

unfoldable pub poll_and_handle : Arguments → Round → ℕ → Bool → SetupResult → Polled → Outcome Next
poll_and_handle args r size ctx s failure = done (break (record { conns = s.conns; ctx = ctx }))
poll_and_handle args r size ctx s timeout = done (continue (record { conns = s.conns; ctx = ctx }))
poll_and_handle args r size ctx s (ready revents) =
    handle_from args revents r.answers size s.bitmap 0 ctx s.conns s.polled >>= λ w.
    done (continue w)

-- The number of bytes of the bitmap.
unfoldable pub bitmap_size : ℕ → ℕ
bitmap_size n = (n / 8 + (if n % 8 == 0 then 0 else 1)) % 65536

-- The bitmap is cleared first. An error of the set-up and an empty array lead to the next round.
unfoldable pub run_round : Arguments → ℕ → World → Round → Outcome Next
run_round args size w r =
    setup_connection_fdsets r.resolve args w.conns size (replicate size 0) >>= λ s.
    if is_positive s.count
    then poll_and_handle args r size w.ctx s r.poll
    else done (continue (record { conns = s.conns; ctx = w.ctx }))

unfoldable pub run_rounds : Arguments → ℕ → World → List Round → Outcome World
run_rounds args size w [] = done w
run_rounds args size w (r ∷ rs) = run_round args size w r >>= λ n. elim n [
  | continue w' ↦ run_rounds args size w' rs
  | break w' ↦ done w'
]

-- The loop that initialises connection after connection, the first at index `i`.
unfoldable pub init_connections : (ℕ → Resolver) → Arguments → List ℕ → ℕ → ℕ → List Connection
init_connections resolve args body i zero = []
init_connections resolve args body i (suc n) =
    (allocate_socket (resolve i) args (init_connection args body)).conn
    ∷ init_connections resolve args body (suc i) n

-- What the system does for a whole run: whether `malloc` succeeds for a number of connections that is
-- not negative, the addresses at the start and the rounds.
pub record Run : Type 0 where
  pub malloc : Bool
  pub resolve : ℕ → Resolver
  pub rounds : List Round

-- What every connection still holds is released.
unfoldable pub release_all : List Connection → List Release
release_all [] = []
release_all (c ∷ cs) = (cleanup_connection c).calls ++ release_all cs

-- The results, what was released at the end, and whether `free_ssl_lib` has freed the SSL context.
pub record Finished : Type 0 where
  pub totals : Totals
  pub released : List Release
  pub ctx_freed : Bool

unfoldable pub finish : Arguments → World → Finished
finish args w = record {
  totals = summarize (record { failed = 0; speed = 0; bytes = 0 }) w.conns;
  released = release_all w.conns;
  ctx_freed = args.protocol == protocol_https && w.ctx;
}

-- The number of connections.
abbrev pub connection_count : ℕ → ℕ
connection_count clients = if ltb max_connections clients then max_connections else clients

unfoldable pub bench_with : Run → Arguments → List ℕ → ℕ → Outcome (Option Finished)
bench_with run args body n =
    if not run.malloc
    then done none
    else if n == 0
    then fault
    else (run_rounds args (bitmap_size n)
          (record { conns = init_connections run.resolve args body 0 n; ctx = false }) run.rounds
        >>= λ w. done (some (finish args w)))

-- `none` where the function returns before it has results: a negative number of clients asks
-- `malloc` for more than any object may have, which it refuses. Without a client the bitmap is an
-- array of length 0.
unfoldable pub bench_poll : Run → Arguments → List ℕ → Outcome (Option Finished)
bench_poll run args body = elim args.clients [
  | pos n ↦ bench_with run args body (connection_count n)
  | negsuc n ↦ done none
]

-- ===== src/Epoll/Bench/Safe.antt =====
-- src/bench_epoll.c: every connection of a run stays well formed.
use web_bench.Prelude.{ℕ, ◌≡◌, ◌<◌, refl, List, length, All, done}
use web_bench.Arguments.{Arguments}
use web_bench.Request.{request_body_size}
use web_bench.Connection.{Connection, idle}
use web_bench.Epoll.Socket.{init_connection, zero_connection, cleanup_connection}
use web_bench.Epoll.WellFormed.{WellFormed, Obeys}
use web_bench.Epoll.WellFormed.Handler.{handle_ready_connection-WellFormed}
use web_bench.Epoll.WellFormed.Lifecycle.{
  init_connection-WellFormed, cleanup_connection-WellFormed, allocate_socket-WellFormed,
}
use web_bench.Epoll.Bench.{World, Run, run_rounds}
use web_bench.Epoll.Bench.Invariant.{run_rounds-All, About, RoundsObey}
use web_bench.Epoll.Bench.Sums.{start, init_connections-All}

cleanup_connection-idle : (c : Connection) → (cleanup_connection c).conn.state ≡ idle
unfolding cleanup_connection
cleanup_connection-idle c = refl

init_connection-idle :
    (args : Arguments) (body : List ℕ) → (init_connection args body zero_connection).state ≡ idle
unfolding init_connection
init_connection-idle args body = refl

-- For a request that fits the request array, and a system that takes and gives no more bytes than it is asked to, every connection is well formed after any number of rounds that the process survives: no offset has left the request or the receive buffer, also over restarts.
pub run_rounds-WellFormed :
    (run : Run) (args : Arguments) (body : List ℕ) (n : ℕ) (w : World)
    → length body < request_body_size
    → RoundsObey (About (Obeys args)) args run.epoll_create (start run args body n) run.rounds
    → run_rounds args run.epoll_create (start run args body n) run.rounds ≡ done w
    → All (WellFormed args body) w.conns
run_rounds-WellFormed run args body n w short q h =
    run_rounds-All args run.epoll_create (WellFormed args body) (Obeys args)
      (λ a ctx c ev p o.
        handle_ready_connection-WellFormed args body a ctx c ev run.epoll_create p o)
      (λ resolve c p.
        allocate_socket-WellFormed resolve args body _ (cleanup_connection-WellFormed args body c p)
          (cleanup_connection-idle c))
      (start run args body n) w run.rounds
      (init_connections-All (WellFormed args body) run.resolve args body
        (λ r.
          allocate_socket-WellFormed r args body _ (init_connection-WellFormed args body short)
            (init_connection-idle args body))
        0 n)
      q h

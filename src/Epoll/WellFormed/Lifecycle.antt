-- ===== src/Epoll/WellFormed/Lifecycle.antt =====
-- src/bench_epoll.c: a connection is well formed from `init_connection` on, and after
-- `cleanup_connection` and `allocate_socket`.
use web_bench.Prelude.{ℕ, ◌<◌, ◌≡◌, List, length, arith}
use web_bench.Arguments.{Arguments}
use web_bench.Request.{request_body_size}
use web_bench.Connection.{Connection, idle}
use web_bench.Epoll.Socket.{
  Resolver, zero_connection, init_connection, cleanup_connection, allocate_socket,
}
use web_bench.Epoll.WellFormed.{WellFormed}

pub init_connection-WellFormed :
    (args : Arguments) (body : List ℕ)
    → length body < request_body_size
    → WellFormed args body (init_connection args body zero_connection)
unfolding init_connection
init_connection-WellFormed args body h = ground arith

pub cleanup_connection-WellFormed :
    (args : Arguments) (body : List ℕ) (c : Connection)
    → WellFormed args body c
    → WellFormed args body (cleanup_connection c).conn
unfolding cleanup_connection
cleanup_connection-WellFormed args body c w = ground arith

pub allocate_socket-WellFormed :
    (resolve : Resolver) (args : Arguments) (body : List ℕ) (c : Connection)
    → WellFormed args body c
    → c.state ≡ idle
    → WellFormed args body (allocate_socket resolve args c).conn
unfolding allocate_socket
allocate_socket-WellFormed resolve args body c w h = ground arith

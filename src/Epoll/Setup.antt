-- ===== src/Epoll/Setup.antt =====
-- src/bench_epoll.c: `setup_connection_to_epoll_instance`.
pub mod Waiting
use web_bench.Prelude.{
  ℕ, suc, Bool, true, false, not, ◌||◌, Option, none, some, List, [], ◌∷◌, if◌then◌else◌, length,
}
use web_bench.Prelude.Int.{ℤ, pos, minus_one, is_nonneg}
use web_bench.Arguments.{Arguments}
use web_bench.Connection.{
  Connection, ConnState, idle, connecting, proxy_connect, proxy_response, tls_handshake, sending,
  receiving, completed, error,
}
use web_bench.Epoll.Socket.{Resolver, cleanup_connection, allocate_socket}

-- `epoll_ctl` with EPOLL_CTL_ADD: it succeeds, the descriptor is there already (EEXIST), or it fails.
pub data Added : Type 0 where
  added exists denied : Added

-- The system during one call: for the connection at each index, the addresses that it finds and the
-- answer of `epoll_ctl`.
pub record SetupEnv : Type 0 where
  pub resolve : ℕ → Resolver
  pub ctl_add : ℕ → Added

-- The events that a connection waits for; EPOLLET is always set.
pub record Interest : Type 0 where
  pub readable : Bool
  pub writable : Bool

abbrev pub interest : ConnState → Option Interest
interest connecting = some (record { readable = false; writable = true })
interest sending = some (record { readable = false; writable = true })
interest proxy_connect = some (record { readable = false; writable = true })
interest receiving = some (record { readable = true; writable = false })
interest proxy_response = some (record { readable = true; writable = false })
interest tls_handshake = some (record { readable = true; writable = true })
interest idle = none
interest completed = none
interest error = none

-- A connection that is over starts anew; this round does not register it.
unfoldable pub restart : SetupEnv → Arguments → ℕ → ConnState → Connection → Connection
restart env args i completed conn =
    (allocate_socket (env.resolve i) args (cleanup_connection conn).conn).conn
restart env args i error conn =
    (allocate_socket (env.resolve i) args (cleanup_connection conn).conn).conn
restart env args i _ conn = conn

abbrev pub is_denied : Added → Bool
is_denied denied = true
is_denied added = false
is_denied exists = false

-- The connections after the loop, the index and the events of each that is counted, and whether no
-- call of `epoll_ctl` has failed.
pub record Registered : Type 0 where
  pub conns : List Connection
  pub waiting : List (ℕ × Interest)
  pub ok : Bool

unfoldable pub register_from : SetupEnv → Arguments → ℕ → List Connection → Registered
register_from env args i [] = record { conns = []; waiting = []; ok = true }
register_from env args i (c ∷ cs) =
    let rest = register_from env args (suc i) cs in
    elim (interest c.state) [
      | none ↦ record rest { conns = restart env args i c.state c ∷ rest.conns }
      | some events ↦
          if is_denied (env.ctl_add i)
          then record { conns = c ∷ cs; waiting = []; ok = false }
          else record rest { conns = c ∷ rest.conns; waiting = (i, events) ∷ rest.waiting }
    ]

-- `count` is the returned number, -1 for an error.
pub record SetupResult : Type 0 where
  pub conns : List Connection
  pub waiting : List (ℕ × Interest)
  pub count : ℤ

unfoldable pub setup_result : Registered → SetupResult
setup_result r = record {
  conns = r.conns;
  waiting = r.waiting;
  count = if r.ok then pos (length r.waiting) else minus_one;
}

-- The array of connections: an empty one stands for `num_connections <= 0`. The guard looks at the
-- descriptor of the first connection only.
unfoldable pub setup_connection_to_epoll_instance :
    SetupEnv → Arguments → List Connection → ℤ → SetupResult
setup_connection_to_epoll_instance env args [] epoll_fd = record {
  conns = [];
  waiting = [];
  count = minus_one;
}
setup_connection_to_epoll_instance env args (c ∷ cs) epoll_fd =
    if not (is_nonneg c.sockfd) || not (is_nonneg epoll_fd)
    then record { conns = c ∷ cs; waiting = []; count = minus_one }
    else setup_result (register_from env args 0 (c ∷ cs))

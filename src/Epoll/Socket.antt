-- ===== src/Epoll/Socket.antt =====
-- src/bench_epoll.c: `create_nonblocking_socket`, `init_connection`, `cleanup_connection` and
-- `allocate_socket`.
--
-- The addresses of a host come as a list, with what the system does for each: the descriptor that
-- `socket` returns, and whether `connect` succeeds or is in progress. Descriptors that are closed
-- and calls of OpenSSL are results.
pub mod Resources
use web_bench.Prelude.{
  ℕ, Bool, true, false, not, ◌&&◌, Option, none, some, List, [], ◌∷◌, ◌++◌, ◌==◌, if◌then◌else◌,
  length,
}
use web_bench.Prelude.Int.{ℤ, pos, minus_one, is_positive}
use web_bench.Arguments.{Arguments, protocol_https}
use web_bench.Connection.{Connection, ConnState, idle, connecting}
use web_bench.Epoll.Proxy.{is_valid_port, need_connect_proxy}

pub record Attempt : Type 0 where
  pub socket : ℤ
  pub connects : Bool

-- `getaddrinfo`: the addresses of a host and a port, `none` for an error.
abbrev pub Resolver : Type 0
Resolver = List ℕ → ℤ → Option (List Attempt)

pub record Opened : Type 0 where
  pub sockfd : ℤ
  pub closed : List ℤ

-- The loop over the addresses.
unfoldable pub try_addresses : List Attempt → Opened
try_addresses [] = record { sockfd = minus_one; closed = [] }
try_addresses (a ∷ rest) =
    let next = try_addresses rest in
    if not (is_positive a.socket)
    then next
    else if a.connects
    then record { sockfd = a.socket; closed = [] }
    else record next { closed = a.socket ∷ next.closed }

unfoldable pub create_nonblocking_socket : Resolver → List ℕ → ℤ → Opened
create_nonblocking_socket resolve host port =
    if not (is_valid_port port)
    then record { sockfd = minus_one; closed = [] }
    else elim (resolve host port) [
      | none ↦ record { sockfd = minus_one; closed = [] }
      | some addresses ↦ try_addresses addresses
    ]

-- A connection as `calloc` gives it.
abbrev pub zero_connection : Connection
zero_connection = record {
  state = idle;
  sockfd = pos 0;
  ssl_context = false;
  ssl = false;
  is_https = false;
  request = [];
  response = [];
  request_len = 0;
  force_flag = 0;
  bytes_sent = 0;
  bytes_received = 0;
  speed = 0;
  failed = 0;
  bytes = 0;
}

unfoldable pub init_connection : Arguments → List ℕ → Connection → Connection
init_connection args body conn = record conn {
  sockfd = minus_one;
  ssl = false;
  is_https = args.protocol == protocol_https;
  state = idle;
  force_flag = args.force;
  speed = 0;
  failed = 0;
  bytes = 0;
  request = body;
  request_len = length body;
  bytes_sent = 0;
  bytes_received = 0;
}

-- The calls by which a connection gives up what it holds.
pub data Release : Type 0 where
  ssl_shutdown ssl_free : Release
  close : ℤ → Release

pub record Cleaned : Type 0 where
  pub conn : Connection
  pub calls : List Release

unfoldable pub cleanup_connection : Connection → Cleaned
cleanup_connection conn = record {
  conn = record conn {
    ssl = false;
    sockfd = if is_positive conn.sockfd then minus_one else conn.sockfd;
    ssl_context = false;
    state = idle;
    bytes_sent = 0;
    bytes_received = 0;
    response = [];
  };
  calls =
      (if conn.ssl then ssl_shutdown ∷ (ssl_free ∷ []) else [])
      ++ (if is_positive conn.sockfd then close conn.sockfd ∷ [] else []);
}

pub record Allocated : Type 0 where
  pub conn : Connection
  pub ret : ℤ
  pub closed : List ℤ

unfoldable pub open_socket : Resolver → Arguments → Opened
open_socket resolve args =
    if need_connect_proxy args
    then create_nonblocking_socket resolve args.proxy_host args.proxy_port
    else create_nonblocking_socket resolve args.target_host args.target_port

unfoldable pub allocate_socket : Resolver → Arguments → Connection → Allocated
allocate_socket resolve args conn =
    let opened = open_socket resolve args in
    let with_fd = record conn { sockfd = opened.sockfd } in
    if is_positive opened.sockfd
    then record {
      conn = record with_fd { state = connecting };
      ret = pos 1;
      closed = opened.closed;
    }
    else record { conn = with_fd; ret = minus_one; closed = opened.closed }

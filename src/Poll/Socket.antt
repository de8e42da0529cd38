-- ===== src/Poll/Socket.antt =====
-- src/bench_poll.c: `create_nonblocking_socket`, `init_connection`, `allocate_socket` and
-- `cleanup_connection`.
use web_bench.Prelude.{ℕ, false, not, none, some, List, [], ◌∷◌, ◌++◌, ◌==◌, if◌then◌else◌, length}
use web_bench.Prelude.Int.{ℤ, pos, minus_one, is_positive, equals}
use web_bench.Arguments.{Arguments, protocol_https}
use web_bench.Connection.{Connection, idle, connecting}
use web_bench.Epoll.Socket.{
  Resolver, Opened, ssl_shutdown, ssl_free, close, Cleaned, Allocated, try_addresses,
}
use web_bench.Poll.Proxy.{is_port, need_connect_proxy}

-- The loop over the addresses is that of bench_epoll.c.
unfoldable pub create_nonblocking_socket : Resolver → List ℕ → ℤ → Opened
create_nonblocking_socket resolve host port =
    if not (is_port port)
    then record { sockfd = minus_one; closed = [] }
    else elim (resolve host port) [
      | none ↦ record { sockfd = minus_one; closed = [] }
      | some addresses ↦ try_addresses addresses
    ]

-- Every field is set, whatever the connection was before.
unfoldable pub init_connection : Arguments → List ℕ → Connection
init_connection args body = record {
  state = idle;
  sockfd = minus_one;
  ssl_context = false;
  ssl = false;
  is_https = args.protocol == protocol_https;
  request = body;
  response = [];
  request_len = length body;
  force_flag = args.force;
  bytes_sent = 0;
  bytes_received = 0;
  speed = 0;
  failed = 0;
  bytes = 0;
}

unfoldable pub open_socket : Resolver → Arguments → Opened
open_socket resolve args =
    if need_connect_proxy args
    then create_nonblocking_socket resolve args.proxy_host args.proxy_port
    else create_nonblocking_socket resolve args.target_host args.target_port

unfoldable pub allocate_socket : Resolver → Arguments → Connection → Allocated
allocate_socket resolve args conn =
    let opened = open_socket resolve args in
    let with_fd = record conn { sockfd = opened.sockfd } in
    if is_positive opened.sockfd
    then record {
      conn = record with_fd { state = connecting };
      ret = pos 1;
      closed = opened.closed;
    }
    else record { conn = with_fd; ret = minus_one; closed = opened.closed }

-- Every descriptor but 0 is closed, -1 too.
unfoldable pub cleanup_connection : Connection → Cleaned
cleanup_connection conn = record {
  conn = record conn {
    ssl = false;
    sockfd = if equals 0 conn.sockfd then conn.sockfd else minus_one;
    ssl_context = false;
    state = idle;
    bytes_sent = 0;
    bytes_received = 0;
    response = [];
  };
  calls =
      (if conn.ssl then ssl_shutdown ∷ (ssl_free ∷ []) else [])
      ++ (if equals 0 conn.sockfd then [] else close conn.sockfd ∷ []);
}

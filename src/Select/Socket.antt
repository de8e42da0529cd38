-- ===== src/Select/Socket.antt =====
-- src/bench_select.c: `create_nonblocking_socket` and `allocate_socket`.
use web_bench.Prelude.{ℕ, not, none, some, List, [], ◌∷◌, if◌then◌else◌, Outcome, done, exit}
use web_bench.Prelude.Int.{ℤ, minus_one, is_nonneg}
use web_bench.Arguments.{Arguments}
use web_bench.Connection.{Connection, connecting}
use web_bench.Epoll.Socket.{Attempt, Resolver, Opened}
use web_bench.Poll.Proxy.{is_port}
use web_bench.Select.Proxy.{need_connect_proxy}

-- The loop over the addresses. `socket` answers a descriptor, 0 or more, or -1.
unfoldable pub try_addresses : List Attempt → Opened
try_addresses [] = record { sockfd = minus_one; closed = [] }
try_addresses (a ∷ rest) =
    let next = try_addresses rest in
    if not (is_nonneg a.socket)
    then next
    else if a.connects
    then record { sockfd = a.socket; closed = [] }
    else record next { closed = a.socket ∷ next.closed }

unfoldable pub create_nonblocking_socket : Resolver → List ℕ → ℤ → Opened
create_nonblocking_socket resolve host port =
    if not (is_port port)
    then record { sockfd = minus_one; closed = [] }
    else elim (resolve host port) [
      | none ↦ record { sockfd = minus_one; closed = [] }
      | some addresses ↦ try_addresses addresses
    ]

unfoldable pub open_socket : Resolver → Arguments → Opened
open_socket resolve args =
    if need_connect_proxy args
    then create_nonblocking_socket resolve args.proxy_host args.proxy_port
    else create_nonblocking_socket resolve args.target_host args.target_port

-- Without a socket the process exits with EXIT_FAILURE.
unfoldable pub allocate_socket : Resolver → Arguments → Connection → Outcome Connection
allocate_socket resolve args conn =
    let opened = open_socket resolve args in
    if not (is_nonneg opened.sockfd)
    then exit 1
    else done (record conn { sockfd = opened.sockfd; state = connecting })

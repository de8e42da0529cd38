-- ===== src/Epoll/Socket/Resources.antt =====
-- src/bench_epoll.c: no descriptor is lost between `socket` and `close`.
use web_bench.Prelude.{ℕ, ◌≤◌, ◌≡◌, ◌⊎◌, true, List, [], ◌∷◌, ◌++◌, length, take, if◌then◌else◌}
use web_bench.Prelude.Int.{ℤ, minus_one, is_positive}
use web_bench.Arguments.{Arguments}
use web_bench.Connection.{Connection}
use web_bench.Epoll.Proxy.{need_connect_proxy}
use web_bench.Epoll.Socket.{Attempt, Opened, Release, ssl_shutdown, ssl_free, close}

-- The descriptors that `socket` has given, for the addresses tried.
abbrev pub given : List Attempt → List ℤ
given [] = []
given (a ∷ rest) = if is_positive a.socket then a.socket ∷ given rest else given rest

-- A descriptor that is held, if it is one.
abbrev pub held : ℤ → List ℤ
held fd = if is_positive fd then fd ∷ [] else []

record Tries (addresses : List Attempt) (o : Opened) : Type 0 where
  tried : ℕ
  few : tried ≤ length addresses
  all : given (take tried addresses) ≡ o.closed ++ held o.sockfd
  ends : (is_positive o.sockfd ≡ true) ⊎ ((o.sockfd ≡ minus_one) × (tried ≡ length addresses))

-- The descriptors among the calls of a clean-up.
abbrev pub closes : List Release → List ℤ
closes [] = []
closes (ssl_shutdown ∷ rest) = closes rest
closes (ssl_free ∷ rest) = closes rest
closes (close fd ∷ rest) = fd ∷ closes rest

-- Whom the connection calls.
abbrev pub dialled : Arguments → List ℕ × ℤ
dialled args =
    if need_connect_proxy args
    then (args.proxy_host, args.proxy_port)
    else (args.target_host, args.target_port)

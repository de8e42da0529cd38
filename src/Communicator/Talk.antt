-- ===== src/Communicator/Talk.antt =====
-- src/communicator.c: `handle_proxy_connect`, `communicate_through_http`, `communicate_through_https`
-- and `communicate`.
--
-- The CONNECT text and the test of its answer are written there as in bench_epoll.c. A text is the
-- bytes in front of its NUL.
use web_bench.Prelude.{
  ℕ, ◌+◌, ◌-◌, Bool, true, not, ◌&&◌, ◌||◌, Option, none, some, List, [], ◌∷◌, ltb, leb, ◌==◌,
  if◌then◌else◌, length,
}
use web_bench.Prelude.Int.{ℤ, pos, minus_one, is_positive, is_nonneg}
use web_bench.Arguments.{Arguments, protocol_http, protocol_https}
use web_bench.Connection.{Sent, count, refused}
use web_bench.Epoll.Proxy.{connect_request, established, taken}
use web_bench.Communicator.{
  Ended, returned, waiting, crashed, failed, Talked, SocketCall, TlsWrite, TlsRead, without_call,
  close_and_return, followed_by,
}
use web_bench.Communicator.Socket.{socket}
use web_bench.Communicator.Tls.{TlsSent, send_tls_data, recv_tls_data}

-- The answers of the system and of OpenSSL during one call of `communicate`.
pub record Calls : Type 0 where
  pub addresses : Option ℕ
  pub sockets : List SocketCall
  pub proxy_send : Sent
  pub proxy_recv : Option (List ℕ)
  pub ctx_new : Bool
  pub ssl_new : Bool
  pub ssl_connect : ℤ
  pub ssl_writes : List TlsWrite
  pub ssl_reads : List TlsRead
  pub send : Sent
  pub recvs : List (Option (List ℕ))

abbrev pub response_size : ℕ
response_size = 8192

-- The tunnel is up: the descriptor stays open.
abbrev pub tunnel : ℤ → List ℕ → Talked
tunnel sockfd out = record { ended = returned sockfd; opened = []; closed = []; out = out }

-- From the answer of the proxy on.
unfoldable pub proxy_answer : Option (List ℕ) → List ℕ → ℤ → Talked
proxy_answer none out sockfd = close_and_return sockfd minus_one out
proxy_answer (some response) out sockfd =
    if established response then tunnel sockfd out else close_and_return sockfd minus_one out

unfoldable pub proxy_request : Option (List ℕ) → Sent → List ℕ → ℤ → Talked
proxy_request response refused request sockfd = close_and_return sockfd minus_one []
proxy_request response (count n) request sockfd =
    proxy_answer response (taken (count n) request) sockfd

-- From `Socket` on.
unfoldable pub proxy_talk : Calls → List ℕ → ℤ → Talked
proxy_talk calls request sockfd =
    if not (is_nonneg sockfd)
    then without_call failed
    else proxy_request calls.proxy_recv calls.proxy_send request sockfd

unfoldable pub handle_proxy_connect : Calls → Arguments → Talked
handle_proxy_connect calls args =
    if length args.proxy_host == 0
      || length args.target_host == 0
      || not (is_positive args.proxy_port)
      || not (is_positive args.target_port)
    then without_call failed
    else followed_by (socket args.proxy_port calls.addresses calls.sockets)
        (proxy_talk calls (connect_request args.target_host args.target_port))

-- The loop that reads the response, of which `total` bytes are there; what it returns.
unfoldable pub recv_response : ℕ → List (Option (List ℕ)) → Ended
recv_response total [] = waiting
recv_response total (none ∷ rs) = returned (pos total)
recv_response total (some [] ∷ rs) = returned (pos total)
recv_response total (some (x ∷ xs) ∷ rs) =
    let total' = total + length (x ∷ xs) in
    let more = recv_response total' rs in
    if leb (response_size - 1) total' then returned (pos total') else more

-- The descriptor is closed when the call returns, and not before.
abbrev pub close_after : ℤ → List ℕ → Ended → Talked
close_after sockfd out ended = record {
  ended = ended;
  opened = [];
  closed = elim ended [ returned r ↦ sockfd ∷ [] | waiting ↦ [] | crashed ↦ [] ];
  out = out;
}

unfoldable pub http_response : Calls → ℕ → List ℕ → ℤ → Sent → Talked
http_response calls force body sockfd refused = close_and_return sockfd minus_one []
http_response calls force body sockfd (count n) =
    if force == 1
    then close_and_return sockfd (pos 0) (taken (count n) body)
    else close_after sockfd (taken (count n) body) (recv_response 0 calls.recvs)

-- From `Socket` on.
unfoldable pub http_talk : Calls → ℕ → List ℕ → ℤ → Talked
http_talk calls force body sockfd =
    if not (is_nonneg sockfd)
    then without_call failed
    else http_response calls force body sockfd calls.send

unfoldable pub communicate_through_http : Calls → ℤ → ℕ → List ℕ → Talked
communicate_through_http calls port force body =
    if not (is_positive port)
    then without_call failed
    else followed_by (socket port calls.addresses calls.sockets) (http_talk calls force body)

-- A negative number is returned as -1.
abbrev pub or_failed : Ended → Ended
or_failed (returned r) = if is_nonneg r then returned r else failed
or_failed waiting = waiting
or_failed crashed = crashed

unfoldable pub https_response : Calls → ℕ → ℤ → TlsSent → Talked
https_response calls force sockfd sent = elim sent.ended [
  | returned r ↦
      if not (is_nonneg r)
      then close_and_return sockfd minus_one sent.out
      else if force == 1
      then close_and_return sockfd (pos 0) sent.out
      else close_after sockfd sent.out
          (or_failed (recv_tls_data response_size calls.ssl_reads).ended)
  | waiting ↦ record { ended = waiting; opened = []; closed = []; out = sent.out }
  | crashed ↦ record { ended = crashed; opened = []; closed = []; out = sent.out }
]

-- From the SSL context on, also with a descriptor of -1. `SSL_set_fd` on a NULL pointer crashes.
unfoldable pub https_talk : Calls → ℕ → List ℕ → ℤ → Talked
https_talk calls force body sockfd =
    if not calls.ctx_new
    then close_and_return sockfd minus_one []
    else if not calls.ssl_new
    then without_call crashed
    else if not (is_positive calls.ssl_connect)
    then close_and_return sockfd minus_one []
    else https_response calls force sockfd (send_tls_data true body calls.ssl_writes)

unfoldable pub communicate_through_https : Calls → Arguments → List ℕ → Talked
communicate_through_https calls args body =
    followed_by
      (if not (length args.proxy_host == 0)
        then handle_proxy_connect calls args
        else socket args.target_port calls.addresses calls.sockets)
      (https_talk calls args.force body)

unfoldable pub communicate : Calls → Arguments → List ℕ → Talked
communicate calls args body =
    if args.protocol == protocol_http
    then (if ltb 0 (length args.proxy_host) && is_positive args.proxy_port
        then communicate_through_http calls args.proxy_port args.force body
        else communicate_through_http calls args.target_port args.force body)
    else if args.protocol == protocol_https
    then communicate_through_https calls args body
    else without_call (returned (pos 0))

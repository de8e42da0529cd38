-- ===== src/Poll/Proxy.antt =====
-- src/bench_poll.c: `need_connect_proxy`, `send_proxy_connect` and `handle_proxy_response`.
use web_bench.Prelude.{ℕ, Bool, not, ◌&&◌, ◌||◌, List, length, drop, leb, ltb, ◌==◌, if◌then◌else◌}
use web_bench.Prelude.Int.{ℤ, pos, minus_one, at_most, is_positive, add_size, sub_size}
use web_bench.Arguments.{Arguments}
use web_bench.Connection.{
  Connection, Answers, Handled, handled, Sent, count, refused, Errno, again, other,
}
use web_bench.Epoll.Proxy.{
  connect_request, taken, established, cleared, remaining_recv, recv_response,
}

-- From 1 to MAX_PORT.
abbrev pub is_port : ℤ → Bool
is_port port = is_positive port && at_most 65535 port

unfoldable pub need_connect_proxy : Arguments → Bool
need_connect_proxy args = not (length args.proxy_host == 0) && is_port args.proxy_port

abbrev retry_or_fail : Errno → ℤ
retry_or_fail again = pos 0
retry_or_fail other = minus_one

-- The `n` bytes that `send` has taken, more than 0.
unfoldable pub sent_connect : Bool → Connection → List ℕ → ℕ → Handled
sent_connect ctx conn request n =
    let sent = add_size conn.bytes_sent n in
    let out = taken (count n) (drop conn.bytes_sent request) in
    if leb (length request) sent
    then record { conn = record conn { bytes_sent = 0 }; ctx = ctx; ret = pos 1; out = out }
    else record { conn = record conn { bytes_sent = sent }; ctx = ctx; ret = pos 0; out = out }

-- The call of `send` and what follows it.
unfoldable pub send_connect : Answers → Bool → Connection → List ℕ → Sent → Handled
send_connect a ctx conn request refused = handled conn ctx (retry_or_fail a.errno)
send_connect a ctx conn request (count n) =
    if ltb 0 n then sent_connect ctx conn request n else handled conn ctx (retry_or_fail a.errno)

unfoldable pub send_proxy_connect : Answers → Bool → Connection → Arguments → Handled
send_proxy_connect a ctx conn args =
    let request = connect_request args.target_host args.target_port in
    if length args.proxy_host == 0 || length args.target_host == 0
    then handled conn ctx minus_one
    else if not (is_port args.proxy_port) || not (is_port args.target_port)
    then handled conn ctx minus_one
    else if not (is_positive conn.sockfd)
    then handled conn ctx minus_one
    else if sub_size (length request) conn.bytes_sent == 0
    then handled conn ctx (pos 1)
    else send_connect a ctx conn request a.send

-- From the call of `recv` on it is that of bench_epoll.c.
unfoldable pub handle_proxy_response : Answers → Bool → Connection → Handled
handle_proxy_response a ctx conn =
    if not (is_positive conn.sockfd)
    then handled conn ctx minus_one
    else if remaining_recv conn == 0
    then (if established conn.response
        then handled (cleared conn) ctx (pos 1)
        else handled conn ctx minus_one)
    else recv_response a ctx conn a.recv

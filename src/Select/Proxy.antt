-- ===== src/Select/Proxy.antt =====
-- src/bench_select.c: `need_connect_proxy`, `send_proxy_connect` and `handle_proxy_response`.
use web_bench.Prelude.{
  ℕ, Bool, true, not, ◌&&◌, ◌||◌, Option, none, some, List, [], ◌∷◌, length, ltb, ◌==◌,
  if◌then◌else◌,
}
use web_bench.Prelude.Int.{ℤ, pos, negsuc, minus_one, is_nonneg, is_positive}
use web_bench.Arguments.{Arguments}
use web_bench.Connection.{
  Connection, Answers, Handled, handled, Sent, count, refused, Errno, again, other,
}
use web_bench.Epoll.Proxy.{connect_request, taken, established}
use web_bench.Poll.Proxy.{is_port}

-- port < 65535, also for a negative port.
abbrev pub below_max : ℤ → Bool
below_max (pos n) = ltb n 65535
below_max (negsuc n) = true

unfoldable pub need_connect_proxy : Arguments → Bool
need_connect_proxy args =
    not (length args.proxy_host == 0) && (is_positive args.proxy_port && below_max args.proxy_port)

abbrev retry_or_fail : Errno → ℤ
retry_or_fail again = pos 0
retry_or_fail other = minus_one

-- The call of `send`, always with the whole request, and what follows it.
unfoldable pub send_connect : Answers → Bool → Connection → List ℕ → Sent → Handled
send_connect a ctx conn request refused = handled conn ctx (retry_or_fail a.errno)
send_connect a ctx conn request (count n) =
    if ltb 0 n
    then record { conn = conn; ctx = ctx; ret = pos n; out = taken (count n) request }
    else handled conn ctx (retry_or_fail a.errno)

unfoldable pub send_proxy_connect : Answers → Bool → Connection → Arguments → Handled
send_proxy_connect a ctx conn args =
    if length args.proxy_host == 0 || length args.target_host == 0
    then handled conn ctx minus_one
    else if not (is_port args.proxy_port) || not (is_port args.target_port)
    then handled conn ctx minus_one
    else if not (is_nonneg conn.sockfd)
    then handled conn ctx minus_one
    else send_connect a ctx conn (connect_request args.target_host args.target_port) a.send

-- One call of `recv` has to bring the whole answer. The result is what the function returns.
unfoldable pub handle_proxy_response : Answers → Option (List ℕ) → ℤ
handle_proxy_response a none = retry_or_fail a.errno
handle_proxy_response a (some []) = retry_or_fail a.errno
handle_proxy_response a (some (x ∷ xs)) = if established (x ∷ xs) then pos 1 else minus_one

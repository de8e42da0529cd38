-- ===== src/Epoll/Proxy.antt =====
-- src/bench_epoll.c: `need_connect_proxy`, `send_proxy_connect` and `handle_proxy_response`, the
-- tunnel through a proxy.
pub mod Laws
pub mod Tunnel
use web_bench.Prelude.{
  ℕ, ◌+◌, ◌-◌, Bool, true, false, not, ◌&&◌, ◌||◌, Option, none, some, List, [], ◌∷◌, ◌++◌, ltb,
  leb, ◌==◌, if◌then◌else◌, length, take, drop,
}
use web_bench.Prelude.Int.{
  ℤ, pos, minus_one, above, at_most, is_positive, is_nonneg, add_size, sub_size, two_64,
}
use web_bench.Prelude.Digits.{print_int}
use web_bench.CString.{codes, snprintf, strstr, cut_nul}
use web_bench.Arguments.{Arguments}
use web_bench.Connection.{
  Connection, Answers, Handled, handled, Sent, count, refused, Errno, again, other, buffer_size,
  recv_buffer_size,
}

-- `IS_VALID_PORT`: from 2 to 65535.
abbrev pub is_valid_port : ℤ → Bool
is_valid_port port = above 1 port && at_most 65535 port

unfoldable pub need_connect_proxy : Arguments → Bool
need_connect_proxy args =
    not (length args.proxy_host == 0)
    && (is_positive args.proxy_port && is_valid_port args.proxy_port)

-- The CONNECT request, as the buffer holds it.
unfoldable pub connect_request : List ℕ → ℤ → List ℕ
connect_request host port =
    let target = host ++ (b':' ∷ print_int port) in
    snprintf buffer_size (
      codes "CONNECT "
      ++ (target
          ++ (codes " HTTP/1.1\r\nHost: " ++ (target ++ codes "\r\nConnection: close\r\n\r\n"))))

-- What `send` returns, converted to `size_t`: -1 becomes the greatest one.
abbrev pub sent_size : Sent → ℕ
sent_size (count n) = n
sent_size refused = two_64 - 1

-- The bytes that `send` has taken from those it was given.
abbrev pub taken : Sent → List ℕ → List ℕ
taken (count n) text = take n text
taken refused text = []

abbrev retry_or_fail : Errno → ℤ
retry_or_fail again = pos 0
retry_or_fail other = minus_one

-- The call of `send` and what follows it.
unfoldable pub send_connect : Answers → Bool → Connection → List ℕ → Handled
send_connect a ctx conn request =
    let sent = add_size conn.bytes_sent (sent_size a.send) in
    let out = taken a.send (drop conn.bytes_sent request) in
    if sent_size a.send == 0
    then handled conn ctx (retry_or_fail a.errno)
    else if leb (length request) sent
    then record { conn = record conn { bytes_sent = 0 }; ctx = ctx; ret = pos 1; out = out }
    else record { conn = record conn { bytes_sent = sent }; ctx = ctx; ret = pos 0; out = out }

unfoldable pub send_proxy_connect : Answers → Bool → Connection → Arguments → Handled
send_proxy_connect a ctx conn args =
    let request = connect_request args.target_host args.target_port in
    if length args.proxy_host == 0 || length args.target_host == 0
    then handled conn ctx minus_one
    else if not (is_valid_port args.proxy_port) || not (is_valid_port args.target_port)
    then handled conn ctx minus_one
    else if not (is_positive conn.sockfd)
    then handled conn ctx minus_one
    else if sub_size (length request) conn.bytes_sent == 0
    then handled conn ctx (pos 1)
    else send_connect a ctx conn request

unfoldable pub established : List ℕ → Bool
established response =
    elim (strstr (cut_nul response) (codes "HTTP/1.1 200 Connection established")) [
      | none ↦ false
      | some i ↦ true
    ]

-- The buffer is cleared for what comes through the tunnel.
abbrev pub cleared : Connection → Connection
cleared conn = record conn { response = []; bytes_received = 0 }

-- Bytes are written behind those that were received.
abbrev pub receive : Connection → List ℕ → Connection
receive conn new = record conn {
  response = take conn.bytes_received conn.response ++ new;
  bytes_received = add_size conn.bytes_received (length new);
}

unfoldable pub read_response : Bool → Connection → Handled
read_response ctx conn =
    if established conn.response
    then handled (cleared conn) ctx (pos 1)
    else if leb recv_buffer_size conn.bytes_received
    then handled conn ctx minus_one
    else handled conn ctx (pos 0)

unfoldable pub recv_response : Answers → Bool → Connection → Option (List ℕ) → Handled
recv_response a ctx conn (some (x ∷ xs)) = read_response ctx (receive conn (x ∷ xs))
recv_response a ctx conn (some []) = handled conn ctx (retry_or_fail a.errno)
recv_response a ctx conn none = handled conn ctx (retry_or_fail a.errno)

-- The bytes that are left in the buffer, beside the NUL.
abbrev pub remaining_recv : Connection → ℕ
remaining_recv conn = sub_size (recv_buffer_size - 1) conn.bytes_received

unfoldable pub handle_proxy_response : Answers → Bool → Connection → Handled
handle_proxy_response a ctx conn =
    if not (is_nonneg conn.sockfd)
    then handled conn ctx minus_one
    else if remaining_recv conn == 0
    then (if established conn.response
        then handled (cleared conn) ctx (pos 1)
        else handled conn ctx minus_one)
    else recv_response a ctx conn a.recv

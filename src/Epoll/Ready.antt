-- ===== src/Epoll/Ready.antt =====
-- src/bench_epoll.c: `handle_ready_connection`, one function for each case of its switch.
pub mod Edges
pub mod Counters
pub mod Keeps
pub mod Wire
pub mod Progress
use web_bench.Prelude.{
  ℕ, ◌+◌, ◌-◌, Bool, true, false, not, ◌&&◌, ◌||◌, Option, none, some, List, [], ◌∷◌, ◌++◌, ltb,
  leb, ◌==◌, if◌then◌else◌, length, take, drop,
}
use web_bench.Prelude.Int.{
  ℤ, pos, minus_one, is_zero, is_positive, is_nonneg, equals, add_size, sub_size, to_int,
}
use web_bench.CString.{codes, strstr, cut_nul}
use web_bench.Arguments.{Arguments}
use web_bench.Connection.{
  ConnState, idle, connecting, proxy_connect, proxy_response, tls_handshake, sending, receiving,
  completed, error, Connection, Answers, Events, Handled, handled, fail, succeed, Sent, count,
  refused, Errno, again, other, SslError, want_read, want_write, fatal, recv_buffer_size,
}
use web_bench.Epoll.Tls.{setup_ssl_context}
use web_bench.Epoll.Proxy.{
  need_connect_proxy, send_proxy_connect, handle_proxy_response, receive, remaining_recv, taken,
}

-- The TLS set-up of a connection without a tunnel. The server name, `SSL_set_tlsext_host_name`, is
-- not part of the state.
unfoldable pub start_tls : Answers → Bool → Connection → Handled
start_tls a ctx conn =
    let tls = setup_ssl_context a ctx (record conn { state = tls_handshake }) in
    if is_positive tls.ret
    then handled tls.conn tls.ctx (pos 0)
    else handled (fail tls.conn) tls.ctx minus_one

unfoldable pub ready_connecting : Arguments → Answers → Bool → Connection → Events → Handled
ready_connecting args a ctx conn ev =
    if ev.writable
    then (if is_zero a.getsockopt && is_zero a.so_error
        then (if need_connect_proxy args && conn.is_https
            then handled (record conn { state = proxy_connect }) ctx (pos 0)
            else if conn.is_https
            then start_tls a ctx conn
            else handled (record conn { state = sending }) ctx (pos 0))
        else handled (fail conn) ctx minus_one)
    else handled conn ctx (pos 0)

unfoldable pub ready_proxy_connect : Arguments → Answers → Bool → Connection → Events → Handled
ready_proxy_connect args a ctx conn ev =
    let sent = send_proxy_connect a ctx conn args in
    if ev.writable
    then (if is_positive sent.ret
        then record sent { conn = record (sent.conn) { state = proxy_response }; ret = pos 0 }
        else if is_zero sent.ret
        then record sent { ret = pos 0 }
        else record sent { conn = fail sent.conn; ret = minus_one })
    else handled conn ctx (pos 0)

-- Once the tunnel stands, TLS is set up on it; the result of `setup_ssl_context` is not looked at.
unfoldable pub enter_tunnel : Answers → Handled → Handled
enter_tunnel a got =
    let tls = setup_ssl_context a got.ctx got.conn in
    handled (record (tls.conn) { state = tls_handshake }) tls.ctx (pos 0)

unfoldable pub after_response : Answers → Handled → Handled
after_response a got =
    if equals 1 got.ret
    then enter_tunnel a got
    else if is_zero got.ret
    then handled got.conn got.ctx (pos 0)
    else handled (fail got.conn) got.ctx (pos 0)

unfoldable pub ready_proxy_response : Answers → Bool → Connection → Events → Handled
ready_proxy_response a ctx conn ev =
    if ev.readable
    then after_response a (handle_proxy_response a ctx conn)
    else handled conn ctx (pos 0)

-- Whether the last error of OpenSSL only asks to try again.
abbrev pub wants_retry : SslError → Bool
wants_retry want_read = true
wants_retry want_write = true
wants_retry fatal = false

unfoldable pub ready_tls_handshake : Answers → Bool → Connection → Events → Handled
ready_tls_handshake a ctx conn ev =
    if conn.ssl && (ev.readable || ev.writable)
    then (if equals 1 a.ssl_connect
        then handled (record conn { state = sending }) ctx (pos 1)
        else if wants_retry a.ssl_error
        then handled conn ctx (pos 0)
        else handled (fail conn) ctx minus_one)
    else handled conn ctx (pos 0)

-- Once the request is sent: with the force flag the response is not waited for.
abbrev pub after_request : ℕ → ConnState
after_request force_flag = if force_flag == 0 then receiving else completed

-- A write that has taken `n` bytes, more than 0.
unfoldable pub wrote : Bool → Connection → ℕ → Handled
wrote ctx conn n =
    let sent = add_size conn.bytes_sent n in
    let out = take n (drop conn.bytes_sent conn.request) in
    if leb conn.request_len sent
    then record {
      conn = record conn { bytes_sent = sent; state = after_request conn.force_flag };
      ctx = ctx;
      ret = pos 0;
      out = out;
    }
    else record { conn = record conn { bytes_sent = sent }; ctx = ctx; ret = pos 0; out = out }

-- A write or a read that gave nothing: it is tried again later, or the connection has failed.
abbrev pub retry_or_error : Bool → Bool → Connection → Handled
retry_or_error retry ctx conn =
    if retry then handled conn ctx (pos 0) else handled (fail conn) ctx minus_one

unfoldable pub ssl_write_request : Answers → Bool → Connection → Sent → Handled
ssl_write_request a ctx conn (count n) =
    if ltb 0 n then wrote ctx conn n else retry_or_error (wants_retry a.ssl_error) ctx conn
ssl_write_request a ctx conn refused = retry_or_error (wants_retry a.ssl_error) ctx conn

abbrev pub is_again : Errno → Bool
is_again again = true
is_again other = false

unfoldable pub send_request : Answers → Bool → Connection → Sent → Handled
send_request a ctx conn (count n) =
    if ltb 0 n then wrote ctx conn n else handled (fail conn) ctx minus_one
send_request a ctx conn refused = retry_or_error (is_again a.errno) ctx conn

-- `int remaining`.
abbrev pub remaining_send : Connection → ℤ
remaining_send conn = to_int (sub_size conn.request_len conn.bytes_sent)

unfoldable pub ready_sending : Answers → Bool → Connection → Events → Handled
ready_sending a ctx conn ev =
    if ev.writable
    then (if not (is_positive (remaining_send conn))
        then handled (record conn { state = after_request conn.force_flag }) ctx (pos 0)
        else if conn.is_https
        then (if conn.ssl
            then ssl_write_request a ctx conn a.ssl_write
            else handled (fail conn) ctx minus_one)
        else send_request a ctx conn a.send)
    else handled conn ctx (pos 0)

unfoldable pub has_header_end : List ℕ → Bool
has_header_end response = elim (strstr (cut_nul response) (codes "\r\n\r\n")) [
  | none ↦ false
  | some i ↦ true
]

-- A read that gave bytes: the connection is done once the end of the header is there.
unfoldable pub got_bytes : Bool → Connection → Handled
got_bytes ctx conn =
    if has_header_end conn.response
    then handled (succeed conn) ctx (pos 0)
    else handled conn ctx (pos 0)

unfoldable pub read_bytes : Bool → Bool → Connection → Option (List ℕ) → Handled
read_bytes retry ctx conn (some (x ∷ xs)) = got_bytes ctx (receive conn (x ∷ xs))
read_bytes retry ctx conn (some []) = retry_or_error retry ctx conn
read_bytes retry ctx conn none = retry_or_error retry ctx conn

-- `read` on the socket: the end of the stream is an error, whatever `errno` says.
unfoldable pub read_socket : Answers → Bool → Connection → Option (List ℕ) → Handled
read_socket a ctx conn (some (x ∷ xs)) = got_bytes ctx (receive conn (x ∷ xs))
read_socket a ctx conn (some []) = handled (fail conn) ctx minus_one
read_socket a ctx conn none = retry_or_error (is_again a.errno) ctx conn

unfoldable pub ready_receiving : Answers → Bool → Connection → Events → Handled
ready_receiving a ctx conn ev =
    if ev.readable
    then (if not (is_positive (to_int (remaining_recv conn)))
        then handled (succeed conn) ctx (pos 0)
        else if conn.is_https
        then read_bytes (wants_retry a.ssl_error) ctx conn a.ssl_read
        else read_socket a ctx conn a.recv)
    else handled conn ctx (pos 0)

-- The switch on the state.
unfoldable pub dispatch : ConnState → Arguments → Answers → Bool → Connection → Events → Handled
dispatch connecting args a ctx conn ev = ready_connecting args a ctx conn ev
dispatch proxy_connect args a ctx conn ev = ready_proxy_connect args a ctx conn ev
dispatch proxy_response args a ctx conn ev = ready_proxy_response a ctx conn ev
dispatch tls_handshake args a ctx conn ev = ready_tls_handshake a ctx conn ev
dispatch sending args a ctx conn ev = ready_sending a ctx conn ev
dispatch receiving args a ctx conn ev = ready_receiving a ctx conn ev
dispatch idle args a ctx conn ev = handled conn ctx (pos 0)
dispatch completed args a ctx conn ev = handled conn ctx (pos 0)
dispatch error args a ctx conn ev = handled conn ctx (pos 0)

unfoldable pub handle_ready_connection :
    Arguments → Answers → Bool → Connection → Events → ℤ → Handled
handle_ready_connection args a ctx conn ev epoll_fd =
    if not (is_nonneg epoll_fd)
    then handled conn ctx minus_one
    else if not a.ctl_del
    then handled conn ctx minus_one
    else if ev.broken
    then handled (fail conn) ctx minus_one
    else dispatch conn.state args a ctx conn ev

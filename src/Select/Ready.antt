-- ===== src/Select/Ready.antt =====
-- src/bench_select.c: `handle_ready_connection`, one function for each case of its switch.
pub mod Plain
pub mod Partial
use web_bench.Prelude.{
  ℕ, ◌+◌, ◌-◌, Bool, true, false, not, ◌&&◌, ◌||◌, Option, none, some, List, [], ◌∷◌, ◌++◌, ltb,
  leb, ◌==◌, if◌then◌else◌, length, take, drop, Outcome, done, fault, ◌>>=◌,
}
use web_bench.Prelude.Int.{ℤ, pos, minus_one, is_zero, is_positive, equals, add_int}
use web_bench.Arguments.{Arguments, protocol_https}
use web_bench.Connection.{
  ConnState, idle, connecting, proxy_connect, proxy_response, tls_handshake, sending, receiving,
  completed, error, Connection, Answers, Events, Handled, handled, fail, Sent, count, refused,
  recv_buffer_size,
}
use web_bench.Epoll.Tls.{get_global_ssl_ctx}
use web_bench.Epoll.Ready.{
  start_tls, wants_retry, is_again, retry_or_error, after_request, has_header_end,
}
use web_bench.Select.Proxy.{need_connect_proxy, send_proxy_connect, handle_proxy_response}
use web_bench.Select.Sets.{fd_isset}

unfoldable pub ready_connecting : Arguments → Answers → Bool → Connection → Events → Handled
ready_connecting args a ctx conn ev =
    if ev.writable
    then (if is_zero a.getsockopt && is_zero a.so_error
        then (if need_connect_proxy args && args.protocol == protocol_https
            then handled (record conn { state = proxy_connect }) ctx (pos 0)
            else if conn.is_https
            then start_tls a ctx conn
            else handled (record conn { state = sending }) ctx (pos 0))
        else handled (fail conn) ctx minus_one)
    else handled conn ctx (pos 0)

-- Any number of bytes sent, more than 0, counts as the whole request.
unfoldable pub ready_proxy_connect : Arguments → Answers → Bool → Connection → Events → Handled
ready_proxy_connect args a ctx conn ev =
    let sent = send_proxy_connect a ctx conn args in
    if ev.writable
    then (if is_positive sent.ret
        then record sent { conn = record (sent.conn) { state = proxy_response }; ret = pos 0 }
        else if is_zero sent.ret
        then record sent { ret = pos 0 }
        else record sent { conn = fail sent.conn; ret = minus_one })
    else handled conn ctx (pos 0)

-- Once the tunnel stands. Without a context the connection is in error, and is not counted as
-- failed; `SSL_set_fd` on a NULL pointer is a fault.
unfoldable pub enter_tunnel : Answers → Bool → Connection → Outcome Handled
unfolding get_global_ssl_ctx
enter_tunnel a ctx conn =
    let ctx' = get_global_ssl_ctx a ctx in
    if not ctx'
    then done (handled (record conn { state = error; ssl_context = false }) ctx' minus_one)
    else if not a.ssl_new
    then fault
    else done (
        handled (record conn { state = tls_handshake; ssl_context = true; ssl = true }) ctx'
          (pos 0))

unfoldable pub after_response : Answers → Bool → Connection → ℤ → Outcome Handled
after_response a ctx conn result =
    if equals 1 result
    then enter_tunnel a ctx conn
    else if is_zero result
    then done (handled conn ctx (pos 0))
    else done (handled (fail conn) ctx minus_one)

unfoldable pub ready_proxy_response : Answers → Bool → Connection → Events → Outcome Handled
ready_proxy_response a ctx conn ev =
    if ev.readable
    then after_response a ctx conn (handle_proxy_response a a.recv)
    else done (handled conn ctx (pos 0))

unfoldable pub ready_tls_handshake : Answers → Bool → Connection → Events → Handled
ready_tls_handshake a ctx conn ev =
    if conn.ssl && (ev.readable || ev.writable)
    then (if equals 1 a.ssl_connect
        then handled (record conn { state = sending }) ctx (pos 0)
        else if wants_retry a.ssl_error
        then handled conn ctx (pos 0)
        else handled (fail conn) ctx minus_one)
    else handled conn ctx (pos 0)

-- A write that has taken `n` bytes, more than 0.
unfoldable pub wrote : Bool → Connection → ℕ → Handled
wrote ctx conn n =
    let sent = conn.bytes_sent + n in
    let state = if leb conn.request_len sent then after_request conn.force_flag else conn.state in
    record {
      conn = record conn { bytes_sent = sent; state = state };
      ctx = ctx;
      ret = pos 0;
      out = take n (drop conn.bytes_sent conn.request);
    }

unfoldable pub ssl_write_request : Answers → Bool → Connection → Sent → Handled
ssl_write_request a ctx conn (count n) =
    if ltb 0 n then wrote ctx conn n else retry_or_error (wants_retry a.ssl_error) ctx conn
ssl_write_request a ctx conn refused = retry_or_error (wants_retry a.ssl_error) ctx conn

unfoldable pub send_request : Answers → Bool → Connection → Sent → Handled
send_request a ctx conn (count n) =
    if ltb 0 n then wrote ctx conn n else handled (fail conn) ctx minus_one
send_request a ctx conn refused = retry_or_error (is_again a.errno) ctx conn

unfoldable pub ready_sending : Answers → Bool → Connection → Events → Handled
ready_sending a ctx conn ev =
    if ev.writable
    then (if leb conn.request_len conn.bytes_sent
        then handled (record conn { state = after_request conn.force_flag }) ctx (pos 0)
        else if conn.is_https
        then (if conn.ssl
            then ssl_write_request a ctx conn a.ssl_write
            else handled (fail conn) ctx minus_one)
        else send_request a ctx conn a.send)
    else handled conn ctx (pos 0)

-- Bytes are written behind those that were received.
abbrev pub receive : Connection → List ℕ → Connection
receive conn new = record conn {
  response = take conn.bytes_received conn.response ++ new;
  bytes_received = conn.bytes_received + length new;
}

-- A response is there: its bytes are counted.
abbrev pub succeed : Connection → Connection
succeed conn = record conn {
  state = completed;
  speed = add_int conn.speed 1;
  bytes = add_int conn.bytes conn.bytes_received;
}

unfoldable pub got_bytes : Bool → Connection → Handled
got_bytes ctx conn =
    if has_header_end conn.response
    then handled (succeed conn) ctx (pos 0)
    else handled conn ctx (pos 0)

unfoldable pub ssl_read_response : Answers → Bool → Connection → Option (List ℕ) → Handled
ssl_read_response a ctx conn (some (x ∷ xs)) = got_bytes ctx (receive conn (x ∷ xs))
ssl_read_response a ctx conn (some []) = retry_or_error (wants_retry a.ssl_error) ctx conn
ssl_read_response a ctx conn none = retry_or_error (wants_retry a.ssl_error) ctx conn

unfoldable pub recv_response : Answers → Bool → Connection → Option (List ℕ) → Handled
recv_response a ctx conn (some (x ∷ xs)) = got_bytes ctx (receive conn (x ∷ xs))
recv_response a ctx conn (some []) = handled (fail conn) ctx minus_one
recv_response a ctx conn none = retry_or_error (is_again a.errno) ctx conn

-- A full buffer completes the connection, and its bytes are not counted.
unfoldable pub ready_receiving : Answers → Bool → Connection → Events → Handled
ready_receiving a ctx conn ev =
    if ev.readable
    then (if leb (recv_buffer_size - 1) conn.bytes_received
        then handled (record conn { state = completed; speed = add_int conn.speed 1 }) ctx (pos 0)
        else if conn.is_https
        then (if conn.ssl
            then ssl_read_response a ctx conn a.ssl_read
            else handled (fail conn) ctx minus_one)
        else recv_response a ctx conn a.recv)
    else handled conn ctx (pos 0)

-- The switch on the state.
unfoldable pub dispatch :
    ConnState → Arguments → Answers → Bool → Connection → Events → Outcome Handled
dispatch connecting args a ctx conn ev = done (ready_connecting args a ctx conn ev)
dispatch proxy_connect args a ctx conn ev = done (ready_proxy_connect args a ctx conn ev)
dispatch proxy_response args a ctx conn ev = ready_proxy_response a ctx conn ev
dispatch tls_handshake args a ctx conn ev = done (ready_tls_handshake a ctx conn ev)
dispatch sending args a ctx conn ev = done (ready_sending a ctx conn ev)
dispatch receiving args a ctx conn ev = done (ready_receiving a ctx conn ev)
dispatch idle args a ctx conn ev = done (handled conn ctx (pos 0))
dispatch completed args a ctx conn ev = done (handled conn ctx (pos 0))
dispatch error args a ctx conn ev = done (handled conn ctx (pos 0))

-- What the sets say about the connection's descriptor.
abbrev pub events_of : List ℕ → List ℕ → ℤ → Events
events_of read write sockfd = record {
  readable = fd_isset sockfd read;
  writable = fd_isset sockfd write;
  broken = false;
}

unfoldable pub handle_ready_connection :
    Arguments → Answers → Bool → Connection → List ℕ → List ℕ → Outcome Handled
handle_ready_connection args a ctx conn read write =
    dispatch conn.state args a ctx conn (events_of read write conn.sockfd)

-- ===== src/Epoll/WellFormed/Handler.antt =====
-- src/bench_epoll.c: the handler keeps a connection well formed.
use web_bench.Prelude.{
  ◌∙◌, ℕ, ◌+◌, ◌-◌, ◌≤◌, ◌<◌, ◌≡◌, refl, Bool, Option, none, some, List, [], ◌∷◌, length, take,
  arith, length-append, length-take,
}
use web_bench.Prelude.Int.{ℤ, two_63}
use web_bench.Arguments.{Arguments}
use web_bench.CString.{snprintf}
use web_bench.CString.Laws.{length-snprintf}
use web_bench.Connection.{
  ConnState, idle, connecting, proxy_connect, proxy_response, tls_handshake, sending, receiving,
  completed, error, Connection, Answers, Events, Handled, fail, Sent, count, refused,
  recv_buffer_size, buffer_size,
}
use web_bench.Epoll.Tls.{setup_ssl_context}
use web_bench.Epoll.Proxy.{
  receive, connect_request, send_proxy_connect, handle_proxy_response, send_connect, recv_response,
  read_response,
}
use web_bench.Epoll.Ready.{
  enter_tunnel, after_response, wants_retry, start_tls, ready_connecting, ready_proxy_connect,
  ready_proxy_response, ready_tls_handshake, ready_sending, ready_receiving, wrote,
  ssl_write_request, send_request, got_bytes, read_bytes, read_socket, dispatch,
  handle_ready_connection,
}
use web_bench.Epoll.Ready.Edges.{handle_ready_connection-cases, handle_proxy_response-state}
use web_bench.Epoll.WellFormed.{WellFormed, Obeys, sent_count, recv_count, sent_limit}

pub connect_request_pos : (host : List ℕ) (port : ℤ) → 0 < length (connect_request host port)
unfolding connect_request snprintf
connect_request_pos host port = omega arith

pub length-connect_request :
    (host : List ℕ) (port : ℤ) → length (connect_request host port) < buffer_size
unfolding connect_request
length-connect_request host port = length-snprintf buffer_size _ (omega arith)

module _ (args : Arguments) (body : List ℕ) (a : Answers) (ctx : Bool) (c : Connection)
    (ev : Events) (w : WellFormed args body c) (o : Obeys args a c) where
  ready_connecting-WellFormed :
      c.state ≡ connecting → WellFormed args body (ready_connecting args a ctx c ev).conn
  unfolding ready_connecting start_tls setup_ssl_context
  ready_connecting-WellFormed h = ground arith

  ready_tls_handshake-WellFormed :
      c.state ≡ tls_handshake → WellFormed args body (ready_tls_handshake a ctx c ev).conn
  unfolding ready_tls_handshake
  ready_tls_handshake-WellFormed h = ground arith

  ready_proxy_connect-WellFormed :
      c.state ≡ proxy_connect → WellFormed args body (ready_proxy_connect args a ctx c ev).conn
  unfolding ready_proxy_connect send_proxy_connect send_connect
  ready_proxy_connect-WellFormed h = ground (
    arith,
    length-connect_request args.target_host args.target_port,
    connect_request_pos args.target_host args.target_port,
  )

  -- What a read leaves in the buffer.
  length-receive :
      (new : List ℕ)
      → length new ≤ recv_buffer_size - 1 - c.bytes_received
      → (length (receive c new).response ≡ (receive c new).bytes_received)
        × ((receive c new).bytes_received ≡ c.bytes_received + length new)
  length-receive new h =
      let n = w.received in
      let r = w.response in
      let long = length-append (take c.bytes_received c.response) new in
      let kept = length-take c.bytes_received c.response in (omega arith, omega arith)

  pub recv_response-WellFormed :
      (r : Option (List ℕ))
      → recv_count r ≤ recv_buffer_size - 1 - c.bytes_received
      → c.state ≡ proxy_response
      → WellFormed args body (recv_response a ctx c r).conn
  unfolding recv_response read_response
  recv_response-WellFormed none k h = w
  recv_response-WellFormed (some []) k h = w
  recv_response-WellFormed (some (x ∷ xs)) k h = ground (arith, length-receive (x ∷ xs) k)

  handle_proxy_response-WellFormed :
      c.state ≡ proxy_response → WellFormed args body (handle_proxy_response a ctx c).conn
  unfolding handle_proxy_response
  handle_proxy_response-WellFormed h = ground (arith, recv_response-WellFormed a.recv o.recv h)

  enter_tunnel-WellFormed :
      (got : Handled)
      → WellFormed args body got.conn
      → got.conn.state ≡ proxy_response
      → WellFormed args body (enter_tunnel a got).conn
  unfolding enter_tunnel setup_ssl_context
  enter_tunnel-WellFormed got g h = ground arith

  pub after_response-WellFormed :
      (got : Handled)
      → WellFormed args body got.conn
      → got.conn.state ≡ proxy_response
      → WellFormed args body (after_response a got).conn
  unfolding after_response
  after_response-WellFormed got g h = ground (arith, enter_tunnel-WellFormed got g h)

  ready_proxy_response-WellFormed :
      c.state ≡ proxy_response → WellFormed args body (ready_proxy_response a ctx c ev).conn
  unfolding ready_proxy_response
  ready_proxy_response-WellFormed h = ground (
    arith,
    after_response-WellFormed (handle_proxy_response a ctx c) (handle_proxy_response-WellFormed h)
        (handle_proxy_response-state args a ctx c ev ∙ h),
  )

  wrote-WellFormed :
      (n : ℕ)
      → n ≤ c.request_len - c.bytes_sent
      → c.state ≡ sending
      → WellFormed args body (wrote ctx c n).conn
  unfolding wrote
  wrote-WellFormed n k h = ground arith

  ssl_write_request-WellFormed :
      (s : Sent)
      → sent_count s ≤ c.request_len - c.bytes_sent
      → c.state ≡ sending
      → WellFormed args body (ssl_write_request a ctx c s).conn
  unfolding ssl_write_request
  ssl_write_request-WellFormed (count n) k h = ground (arith, wrote-WellFormed n k h)
  ssl_write_request-WellFormed refused k h = ground arith

  send_request-WellFormed :
      (s : Sent)
      → sent_count s ≤ c.request_len - c.bytes_sent
      → c.state ≡ sending
      → WellFormed args body (send_request a ctx c s).conn
  unfolding send_request
  send_request-WellFormed (count n) k h = ground (arith, wrote-WellFormed n k h)
  send_request-WellFormed refused k h = ground arith

  send_fits : c.state ≡ sending → sent_count a.send ≤ c.request_len - c.bytes_sent
  send_fits h = let f = o.send in ground arith

  pub ready_sending-WellFormed :
      c.state ≡ sending → WellFormed args body (ready_sending a ctx c ev).conn
  unfolding ready_sending
  ready_sending-WellFormed h = ground (
    arith,
    ssl_write_request-WellFormed a.ssl_write o.ssl_write h,
    send_request-WellFormed a.send (send_fits h) h,
  )

  got_bytes-WellFormed :
      (new : List ℕ)
      → length new ≤ recv_buffer_size - 1 - c.bytes_received
      → c.state ≡ receiving
      → WellFormed args body (got_bytes ctx (receive c new)).conn
  unfolding got_bytes
  got_bytes-WellFormed new k h = ground (arith, length-receive new k)

  read_bytes-WellFormed :
      (retry : Bool) (r : Option (List ℕ))
      → recv_count r ≤ recv_buffer_size - 1 - c.bytes_received
      → c.state ≡ receiving
      → WellFormed args body (read_bytes retry ctx c r).conn
  unfolding read_bytes
  read_bytes-WellFormed retry none k h = ground arith
  read_bytes-WellFormed retry (some []) k h = ground arith
  read_bytes-WellFormed retry (some (x ∷ xs)) k h = got_bytes-WellFormed (x ∷ xs) k h

  read_socket-WellFormed :
      (r : Option (List ℕ))
      → recv_count r ≤ recv_buffer_size - 1 - c.bytes_received
      → c.state ≡ receiving
      → WellFormed args body (read_socket a ctx c r).conn
  unfolding read_socket
  read_socket-WellFormed none k h = ground arith
  read_socket-WellFormed (some []) k h = ground arith
  read_socket-WellFormed (some (x ∷ xs)) k h = got_bytes-WellFormed (x ∷ xs) k h

  pub ready_receiving-WellFormed :
      c.state ≡ receiving → WellFormed args body (ready_receiving a ctx c ev).conn
  unfolding ready_receiving
  ready_receiving-WellFormed h = ground (
    arith,
    read_bytes-WellFormed (wants_retry a.ssl_error) a.ssl_read o.ssl_read h,
    read_socket-WellFormed a.recv o.recv h,
  )

  dispatch-WellFormed :
      (s : ConnState) → c.state ≡ s → WellFormed args body (dispatch s args a ctx c ev).conn
  unfolding dispatch
  dispatch-WellFormed connecting h = ready_connecting-WellFormed h
  dispatch-WellFormed proxy_connect h = ready_proxy_connect-WellFormed h
  dispatch-WellFormed proxy_response h = ready_proxy_response-WellFormed h
  dispatch-WellFormed tls_handshake h = ready_tls_handshake-WellFormed h
  dispatch-WellFormed sending h = ready_sending-WellFormed h
  dispatch-WellFormed receiving h = ready_receiving-WellFormed h
  dispatch-WellFormed idle h = w
  dispatch-WellFormed completed h = w
  dispatch-WellFormed error h = w

  sent_limit-le : (s : ConnState) → sent_limit args c s ≤ two_63
  sent_limit-le proxy_connect =
      omega (arith, length-connect_request args.target_host args.target_port)
  sent_limit-le sending = omega (arith, w.request_len, w.short)
  sent_limit-le receiving = omega (arith, w.request_len, w.short)
  sent_limit-le completed = omega (arith, w.request_len, w.short)
  sent_limit-le idle = omega arith
  sent_limit-le connecting = omega arith
  sent_limit-le proxy_response = omega arith
  sent_limit-le tls_handshake = omega arith
  sent_limit-le error = omega arith

  pub fail-WellFormed : WellFormed args body (fail c)
  fail-WellFormed = ground (arith, sent_limit-le c.state)

-- If the system takes and gives no more bytes than it is asked to, one call of the handler, on any event, keeps a connection well formed: the offsets stay inside the request and inside the receive buffer, a transfer over https has its SSL object, and every active state has a socket.
pub handle_ready_connection-WellFormed :
    (args : Arguments) (body : List ℕ) (a : Answers) (ctx : Bool) (c : Connection) (ev : Events)
    (epoll_fd : ℤ)
    → WellFormed args body c
    → Obeys args a c
    → WellFormed args body (handle_ready_connection args a ctx c ev epoll_fd).conn
handle_ready_connection-WellFormed args body a ctx c ev epoll_fd w o =
    handle_ready_connection-cases (λ h. WellFormed args body h.conn) args a ctx c ev epoll_fd w
      (fail-WellFormed args body a ctx c ev w o)
      (dispatch-WellFormed args body a ctx c ev w o c.state refl)

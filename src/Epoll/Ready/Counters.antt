-- ===== src/Epoll/Ready/Counters.antt =====
-- src/bench_epoll.c: what one call of the handler adds to the counters of a connection.
use web_bench.Prelude.{ℕ, ◌≡◌, ◌≢◌, ◌⊎◌, refl, Bool, Option, none, some, List, [], ◌∷◌, arith}
use web_bench.Prelude.Int.{ℤ, add_int}
use web_bench.Arguments.{Arguments}
use web_bench.Connection.{
  ConnState, idle, connecting, proxy_connect, proxy_response, tls_handshake, sending, receiving,
  completed, error, Connection, Answers, Events, Handled, Sent, count, refused,
}
use web_bench.Epoll.Tls.{setup_ssl_context}
use web_bench.Epoll.Proxy.{
  receive, send_proxy_connect, handle_proxy_response, send_connect, recv_response, read_response,
}
use web_bench.Epoll.Ready.{
  enter_tunnel, after_response, wants_retry, start_tls, ready_connecting, ready_proxy_connect,
  ready_proxy_response, ready_tls_handshake, ready_sending, ready_receiving, wrote,
  ssl_write_request, send_request, got_bytes, read_bytes, read_socket, dispatch,
  handle_ready_connection,
}

-- The counters stay, and a connection that has not failed before has not failed now.
pub record Quiet (c d : Connection) : Type 0 where
  pub failed : d.failed ≡ c.failed
  pub speed : d.speed ≡ c.speed
  pub bytes : d.bytes ≡ c.bytes
  pub not_error : c.state ≢ error → d.state ≢ error
  pub not_counted : c.state ≡ receiving → d.state ≢ completed

-- One more failure, and nothing else.
pub record Failure (c d : Connection) : Type 0 where
  pub failed : d.failed ≡ add_int c.failed 1
  pub speed : d.speed ≡ c.speed
  pub bytes : d.bytes ≡ c.bytes
  pub state : d.state ≡ error

-- One more response, with all the bytes received of it.
pub record Success (c d : Connection) : Type 0 where
  pub failed : d.failed ≡ c.failed
  pub speed : d.speed ≡ add_int c.speed 1
  pub bytes : d.bytes ≡ add_int c.bytes d.bytes_received
  pub before : c.state ≡ receiving
  pub state : d.state ≡ completed

abbrev pub Counted : Connection → Handled → Type 0
Counted c h = Quiet c h.conn ⊎ (Failure c h.conn ⊎ Success c h.conn)

module _ (args : Arguments) (a : Answers) (ctx : Bool) (c : Connection) (ev : Events) where
  setup_ssl_context-counters :
      (d : Connection)
      → ((setup_ssl_context a ctx d).conn.failed ≡ d.failed)
        × ((setup_ssl_context a ctx d).conn.speed ≡ d.speed)
        × ((setup_ssl_context a ctx d).conn.bytes ≡ d.bytes)
        × ((setup_ssl_context a ctx d).conn.state ≡ d.state)
  unfolding setup_ssl_context
  setup_ssl_context-counters d = ground arith

  ready_connecting-Counted : c.state ≡ connecting → Counted c (ready_connecting args a ctx c ev)
  unfolding ready_connecting start_tls
  ready_connecting-Counted h =
      ground (arith, setup_ssl_context-counters (record c { state = tls_handshake }))

  send_proxy_connect-counters :
      ((send_proxy_connect a ctx c args).conn.failed ≡ c.failed)
      × ((send_proxy_connect a ctx c args).conn.speed ≡ c.speed)
      × ((send_proxy_connect a ctx c args).conn.bytes ≡ c.bytes)
      × ((send_proxy_connect a ctx c args).conn.state ≡ c.state)
  unfolding send_proxy_connect send_connect
  send_proxy_connect-counters = ground arith

  ready_proxy_connect-Counted :
      c.state ≡ proxy_connect → Counted c (ready_proxy_connect args a ctx c ev)
  unfolding ready_proxy_connect
  ready_proxy_connect-Counted h = ground (arith, send_proxy_connect-counters)

  recv_response-counters :
      (r : Option (List ℕ))
      → ((recv_response a ctx c r).conn.failed ≡ c.failed)
        × ((recv_response a ctx c r).conn.speed ≡ c.speed)
        × ((recv_response a ctx c r).conn.bytes ≡ c.bytes)
        × ((recv_response a ctx c r).conn.state ≡ c.state)
  unfolding recv_response read_response
  recv_response-counters none = ground arith
  recv_response-counters (some []) = ground arith
  recv_response-counters (some (x ∷ xs)) = ground arith

  handle_proxy_response-counters :
      ((handle_proxy_response a ctx c).conn.failed ≡ c.failed)
      × ((handle_proxy_response a ctx c).conn.speed ≡ c.speed)
      × ((handle_proxy_response a ctx c).conn.bytes ≡ c.bytes)
      × ((handle_proxy_response a ctx c).conn.state ≡ c.state)
  unfolding handle_proxy_response
  handle_proxy_response-counters = ground (arith, recv_response-counters a.recv)

  enter_tunnel-Counted :
      (got : Handled)
      → c.state ≡ proxy_response
      → got.conn.failed ≡ c.failed
      → got.conn.speed ≡ c.speed
      → got.conn.bytes ≡ c.bytes
      → Counted c (enter_tunnel a got)
  unfolding enter_tunnel setup_ssl_context
  enter_tunnel-Counted got h f s b = ground arith

  after_response-Counted :
      (got : Handled)
      → c.state ≡ proxy_response
      → got.conn.state ≡ c.state
      → got.conn.failed ≡ c.failed
      → got.conn.speed ≡ c.speed
      → got.conn.bytes ≡ c.bytes
      → Counted c (after_response a got)
  unfolding after_response
  after_response-Counted got h e f s b = ground (arith, enter_tunnel-Counted got h f s b)

  ready_proxy_response-Counted :
      c.state ≡ proxy_response → Counted c (ready_proxy_response a ctx c ev)
  unfolding ready_proxy_response
  ready_proxy_response-Counted h =
      let (f, s, b, e) = handle_proxy_response-counters in
      ground (arith, after_response-Counted (handle_proxy_response a ctx c) h e f s b)

  ready_tls_handshake-Counted : c.state ≡ tls_handshake → Counted c (ready_tls_handshake a ctx c ev)
  unfolding ready_tls_handshake
  ready_tls_handshake-Counted h = ground arith

  wrote-Counted : (n : ℕ) → c.state ≡ sending → Counted c (wrote ctx c n)
  unfolding wrote
  wrote-Counted n h = ground arith

  ssl_write_request-Counted :
      (s : Sent) → c.state ≡ sending → Counted c (ssl_write_request a ctx c s)
  unfolding ssl_write_request
  ssl_write_request-Counted (count n) h = ground (arith, wrote-Counted n h)
  ssl_write_request-Counted refused h = ground arith

  send_request-Counted : (s : Sent) → c.state ≡ sending → Counted c (send_request a ctx c s)
  unfolding send_request
  send_request-Counted (count n) h = ground (arith, wrote-Counted n h)
  send_request-Counted refused h = ground arith

  ready_sending-Counted : c.state ≡ sending → Counted c (ready_sending a ctx c ev)
  unfolding ready_sending
  ready_sending-Counted h =
      ground (arith, ssl_write_request-Counted a.ssl_write h, send_request-Counted a.send h)

  got_bytes-Counted :
      (new : List ℕ) → c.state ≡ receiving → Counted c (got_bytes ctx (receive c new))
  unfolding got_bytes
  got_bytes-Counted new h = ground arith

  read_bytes-Counted :
      (retry : Bool) (r : Option (List ℕ))
      → c.state ≡ receiving
      → Counted c (read_bytes retry ctx c r)
  unfolding read_bytes
  read_bytes-Counted retry none h = ground arith
  read_bytes-Counted retry (some []) h = ground arith
  read_bytes-Counted retry (some (x ∷ xs)) h = got_bytes-Counted (x ∷ xs) h

  read_socket-Counted :
      (r : Option (List ℕ)) → c.state ≡ receiving → Counted c (read_socket a ctx c r)
  unfolding read_socket
  read_socket-Counted none h = ground arith
  read_socket-Counted (some []) h = ground arith
  read_socket-Counted (some (x ∷ xs)) h = got_bytes-Counted (x ∷ xs) h

  ready_receiving-Counted : c.state ≡ receiving → Counted c (ready_receiving a ctx c ev)
  unfolding ready_receiving
  ready_receiving-Counted h = ground (
    arith,
    read_bytes-Counted (wants_retry a.ssl_error) a.ssl_read h,
    read_socket-Counted a.recv h,
  )

  dispatch-Counted : (s : ConnState) → c.state ≡ s → Counted c (dispatch s args a ctx c ev)
  unfolding dispatch
  dispatch-Counted connecting h = ready_connecting-Counted h
  dispatch-Counted proxy_connect h = ready_proxy_connect-Counted h
  dispatch-Counted proxy_response h = ready_proxy_response-Counted h
  dispatch-Counted tls_handshake h = ready_tls_handshake-Counted h
  dispatch-Counted sending h = ready_sending-Counted h
  dispatch-Counted receiving h = ready_receiving-Counted h
  dispatch-Counted idle h = ground arith
  dispatch-Counted completed h = ground arith
  dispatch-Counted error h = ground arith

-- Whatever the event and the answers of the system, one call of the handler does exactly one of three things to the counters: it leaves them, and then it moves no connection to the error state and completes no reception; or it adds one failure, changes no other counter and puts the connection in the error state; or, in the receiving state only, it adds one response and all the bytes received of it and completes the connection.
pub handle_ready_connection-Counted :
    (args : Arguments) (a : Answers) (ctx : Bool) (c : Connection) (ev : Events) (epoll_fd : ℤ)
    → Counted c (handle_ready_connection args a ctx c ev epoll_fd)
unfolding handle_ready_connection
handle_ready_connection-Counted args a ctx c ev epoll_fd =
    ground (arith, dispatch-Counted args a ctx c ev c.state refl)

-- ===== src/Poll/WellFormed.antt =====
-- src/bench_poll.c: the handler and the sockets of the poll engine keep a connection well formed.
use web_bench.Prelude.{
  ◌∙◌, ℕ, ◌-◌, ◌≤◌, ◌<◌, ◌≡◌, refl, subst, Bool, true, List, length, arith, if_both,
}
use web_bench.Arguments.{Arguments}
use web_bench.Request.{request_body_size}
use web_bench.Connection.{
  ConnState, idle, connecting, proxy_connect, proxy_response, tls_handshake, sending, receiving,
  completed, error, Connection, Answers, Events, Handled, handled, fail, Sent, count, refused,
}
use web_bench.Prelude.Int.{minus_one, is_positive}
use web_bench.Epoll.Tls.{setup_ssl_context}
use web_bench.Epoll.Proxy.{connect_request}
use web_bench.Epoll.Ready.{start_tls}
use web_bench.Epoll.Ready.Edges.{recv_response-state}
use web_bench.Epoll.Socket.{Resolver}
use web_bench.Epoll.WellFormed.{WellFormed, Obeys, sent_count, written_length, sent_limit}
use web_bench.Epoll.WellFormed.Handler as Epoll
use web_bench.Epoll.WellFormed.Handler.{length-connect_request, connect_request_pos}
use web_bench.Poll.Proxy.{send_proxy_connect, send_connect, sent_connect, handle_proxy_response}
use web_bench.Poll.Socket.{init_connection, cleanup_connection, allocate_socket}
use web_bench.Poll.Setup.{restart}
use web_bench.Poll.Ready.{
  ready_connecting, ready_proxy_connect, ready_proxy_response, ready_tls_handshake, ready_sending,
  ready_receiving, dispatch, handle_ready_connection,
}

module _ (args : Arguments) (body : List ℕ) (a : Answers) (ctx : Bool) (c : Connection)
    (ev : Events) (w : WellFormed args body c) (o : Obeys args a c) where
  connecting-WellFormed :
      c.state ≡ connecting → WellFormed args body (ready_connecting args a ctx c ev).conn
  unfolding ready_connecting start_tls setup_ssl_context
  connecting-WellFormed h = ground arith

  tls_handshake-WellFormed :
      c.state ≡ tls_handshake → WellFormed args body (ready_tls_handshake a ctx c ev).conn
  unfolding ready_tls_handshake
  tls_handshake-WellFormed h = ground arith

  sent_connect-WellFormed :
      (n : ℕ)
      → n ≤ length (connect_request args.target_host args.target_port) - c.bytes_sent
      → c.state ≡ proxy_connect
      → WellFormed args body
          (sent_connect ctx c (connect_request args.target_host args.target_port) n).conn
  unfolding sent_connect
  sent_connect-WellFormed n k h = ground (
    arith,
    length-connect_request args.target_host args.target_port,
    connect_request_pos args.target_host args.target_port,
  )

  send_connect-WellFormed :
      (s : Sent)
      → sent_count s ≤ length (connect_request args.target_host args.target_port) - c.bytes_sent
      → c.state ≡ proxy_connect
      → WellFormed args body
          (send_connect a ctx c (connect_request args.target_host args.target_port) s).conn
  unfolding send_connect
  send_connect-WellFormed refused k h = w
  send_connect-WellFormed (count n) k h = ground (arith, sent_connect-WellFormed n k h)

  connect_fits :
      c.state ≡ proxy_connect
      → sent_count a.send
        ≤ length (connect_request args.target_host args.target_port) - c.bytes_sent
  connect_fits h = subst (λ s. sent_count a.send ≤ written_length args c s - c.bytes_sent) h o.send

  send_connect-sent :
      (s : Sent)
      → is_positive (send_connect a ctx c (connect_request args.target_host args.target_port) s).ret
        ≡ true
      → (send_connect a ctx c (connect_request args.target_host args.target_port) s).conn.bytes_sent
        ≡ 0
  unfolding send_connect sent_connect
  send_connect-sent refused h = ground arith
  send_connect-sent (count n) h = ground arith

  send_connect-state :
      (s : Sent)
      → (send_connect a ctx c (connect_request args.target_host args.target_port) s).conn.state
        ≡ c.state
  unfolding send_connect sent_connect
  send_connect-state refused = refl
  send_connect-state (count n) = ground arith

  tunnel-WellFormed :
      c.state ≡ proxy_connect → WellFormed args body (send_proxy_connect a ctx c args).conn
  unfolding send_proxy_connect
  tunnel-WellFormed h = ground (arith, send_connect-WellFormed a.send (connect_fits h) h)

  tunnel-state : (send_proxy_connect a ctx c args).conn.state ≡ c.state
  unfolding send_proxy_connect
  tunnel-state = ground (arith, send_connect-state a.send)

  unsent :
      c.state ≡ proxy_connect
      → c.bytes_sent < length (connect_request args.target_host args.target_port)
  unsent h =
      let limit = subst (λ s. c.bytes_sent ≤ sent_limit args c s) h w.sent in
      omega (arith, limit, connect_request_pos args.target_host args.target_port)

  tunnel-sent :
      c.state ≡ proxy_connect
      → is_positive (send_proxy_connect a ctx c args).ret ≡ true
      → (send_proxy_connect a ctx c args).conn.bytes_sent ≡ 0
  unfolding send_proxy_connect
  tunnel-sent h = ground (
    arith,
    send_connect-sent a.send,
    unsent h,
    length-connect_request args.target_host args.target_port,
  )

  proxy_connect-WellFormed :
      c.state ≡ proxy_connect → WellFormed args body (ready_proxy_connect args a ctx c ev).conn
  unfolding ready_proxy_connect
  proxy_connect-WellFormed h =
      let g = tunnel-WellFormed h in
      let kept = tunnel-state ∙ h in
      let q = g.request in
      let l = g.request_len in
      let s = g.secure in
      let f = g.force in
      let r = g.received in
      let p = g.response in
      let b = g.sent in
      let t = g.tls in
      let k = g.socket in
      ground (arith, tunnel-sent h, length-connect_request args.target_host args.target_port)

  answered-WellFormed :
      c.state ≡ proxy_response → WellFormed args body (handle_proxy_response a ctx c).conn
  unfolding handle_proxy_response
  answered-WellFormed h =
      ground (arith, Epoll.recv_response-WellFormed args body a ctx c ev w o a.recv o.recv h)

  answered-state : (handle_proxy_response a ctx c).conn.state ≡ c.state
  unfolding handle_proxy_response
  answered-state = ground (arith, recv_response-state args a ctx c ev a.recv)

  proxy_response-WellFormed :
      c.state ≡ proxy_response → WellFormed args body (ready_proxy_response a ctx c ev).conn
  unfolding ready_proxy_response
  proxy_response-WellFormed h = ground (
    arith,
    Epoll.after_response-WellFormed args body a ctx c ev w o (handle_proxy_response a ctx c)
        (answered-WellFormed h) (answered-state ∙ h),
  )

  cases-WellFormed :
      (s : ConnState) → c.state ≡ s → WellFormed args body (dispatch s args a ctx c ev).conn
  unfolding dispatch ready_sending ready_receiving
  cases-WellFormed connecting h = connecting-WellFormed h
  cases-WellFormed proxy_connect h = proxy_connect-WellFormed h
  cases-WellFormed proxy_response h = proxy_response-WellFormed h
  cases-WellFormed tls_handshake h = tls_handshake-WellFormed h
  cases-WellFormed sending h = Epoll.ready_sending-WellFormed args body a ctx c ev w o h
  cases-WellFormed receiving h = Epoll.ready_receiving-WellFormed args body a ctx c ev w o h
  cases-WellFormed idle h = w
  cases-WellFormed completed h = w
  cases-WellFormed error h = w

  pub event-WellFormed : WellFormed args body (handle_ready_connection args a ctx c ev).conn
  unfolding handle_ready_connection
  event-WellFormed =
      if_both (λ (h : Handled). WellFormed args body h.conn) ev.broken
        {x = handled (fail c) ctx minus_one} (Epoll.fail-WellFormed args body a ctx c ev w o)
        (cases-WellFormed c.state refl)

module _ (args : Arguments) (body : List ℕ) where
  pub init-WellFormed :
      (resolve : Resolver)
      → length body < request_body_size
      → WellFormed args body (allocate_socket resolve args (init_connection args body)).conn
  unfolding allocate_socket init_connection
  init-WellFormed resolve short = ground arith

  again-WellFormed :
      (resolve : Resolver) (c : Connection)
      → WellFormed args body c
      → WellFormed args body (allocate_socket resolve args (cleanup_connection c).conn).conn
  unfolding allocate_socket cleanup_connection
  again-WellFormed resolve c w = ground arith

  pub restart-WellFormed :
      (resolve : Resolver) (s : ConnState) (c : Connection)
      → WellFormed args body c
      → WellFormed args body (restart resolve args s c)
  unfolding restart
  restart-WellFormed resolve completed c w = again-WellFormed resolve c w
  restart-WellFormed resolve error c w = again-WellFormed resolve c w
  restart-WellFormed resolve idle c w = w
  restart-WellFormed resolve connecting c w = w
  restart-WellFormed resolve proxy_connect c w = w
  restart-WellFormed resolve proxy_response c w = w
  restart-WellFormed resolve tls_handshake c w = w
  restart-WellFormed resolve sending c w = w
  restart-WellFormed resolve receiving c w = w

-- ===== src/Epoll/Ready/Edges.antt =====
-- src/bench_epoll.c: the diagram of the states of a connection, and that an event follows it.
use web_bench.Prelude.{
  ap, if_both, ℕ, ◌≡◌, ◌≢◌, refl, Bool, true, false, not, Option, none, some, List, [], ◌∷◌, arith,
}
use web_bench.Prelude.Int.{ℤ, is_nonneg, minus_one, is_nonneg}
use web_bench.Arguments.{Arguments}
use web_bench.Connection.{
  ConnState, idle, connecting, proxy_connect, proxy_response, tls_handshake, sending, receiving,
  completed, error, Connection, Answers, Events, Handled, handled, fail, Sent, count, refused,
}
use web_bench.Epoll.Tls.{setup_ssl_context}
use web_bench.Epoll.Proxy.{
  send_proxy_connect, handle_proxy_response, send_connect, recv_response, read_response,
}
use web_bench.Epoll.Ready.{
  enter_tunnel, after_response, start_tls, ready_connecting, ready_proxy_connect,
  ready_proxy_response, ready_tls_handshake, ready_sending, ready_receiving, wrote,
  ssl_write_request, send_request, got_bytes, read_bytes, read_socket, dispatch,
  handle_ready_connection,
}

-- The edges of the diagram, for a connection over TLS or not (`secure`), and its force flag.
pub data Edge (secure : Bool) (force : ℕ) : ConnState → ConnState → Type 0 where
  stay : {s : ConnState} → Edge secure force s s
  broken : {s : ConnState} → Edge secure force s error
  connect_plain : secure ≡ false → Edge secure force connecting sending
  connect_tls : secure ≡ true → Edge secure force connecting tls_handshake
  connect_proxy : secure ≡ true → Edge secure force connecting proxy_connect
  ask : Edge secure force proxy_connect proxy_response
  tunnel : Edge secure force proxy_response tls_handshake
  shake : Edge secure force tls_handshake sending
  await : force ≡ 0 → Edge secure force sending receiving
  forget : force ≢ 0 → Edge secure force sending completed
  finish : Edge secure force receiving completed

ruleset edges = (
  stay, broken, connect_plain, connect_tls, connect_proxy, ask, tunnel, shake, await, forget,
  finish,
)

-- What a call does to the state of a connection.
abbrev Follows : Connection → ConnState → Handled → Type 0
Follows c s h = Edge c.is_https c.force_flag s h.conn.state

setup_ssl_context-state :
    (a : Answers) (ctx : Bool) (c : Connection) → (setup_ssl_context a ctx c).conn.state ≡ c.state
unfolding setup_ssl_context
setup_ssl_context-state a ctx c = ground arith

module _ (args : Arguments) (a : Answers) (ctx : Bool) (c : Connection) (ev : Events) where
  ready_connecting-Follows :
      c.state ≡ connecting → Follows c connecting (ready_connecting args a ctx c ev)
  unfolding ready_connecting start_tls
  ready_connecting-Follows h = grind (arith, edges, setup_ssl_context-state)

  pub send_proxy_connect-state : (send_proxy_connect a ctx c args).conn.state ≡ c.state
  unfolding send_proxy_connect send_connect
  send_proxy_connect-state = ground arith

  ready_proxy_connect-Follows :
      c.state ≡ proxy_connect → Follows c proxy_connect (ready_proxy_connect args a ctx c ev)
  unfolding ready_proxy_connect
  ready_proxy_connect-Follows h = grind (arith, edges, send_proxy_connect-state)

  pub recv_response-state : (r : Option (List ℕ)) → (recv_response a ctx c r).conn.state ≡ c.state
  unfolding recv_response read_response
  recv_response-state none = refl
  recv_response-state (some []) = refl
  recv_response-state (some (x ∷ xs)) = ground arith

  pub handle_proxy_response-state : (handle_proxy_response a ctx c).conn.state ≡ c.state
  unfolding handle_proxy_response
  handle_proxy_response-state = ground (arith, recv_response-state a.recv)

  ready_proxy_response-Follows :
      c.state ≡ proxy_response → Follows c proxy_response (ready_proxy_response a ctx c ev)
  unfolding ready_proxy_response after_response enter_tunnel
  ready_proxy_response-Follows h = grind (arith, edges, handle_proxy_response-state)

  ready_tls_handshake-Follows :
      c.state ≡ tls_handshake → Follows c tls_handshake (ready_tls_handshake a ctx c ev)
  unfolding ready_tls_handshake
  ready_tls_handshake-Follows h = grind (arith, edges)

  wrote-Follows : (n : ℕ) → c.state ≡ sending → Follows c sending (wrote ctx c n)
  unfolding wrote
  wrote-Follows n h = grind (arith, edges)

  ssl_write_request-Follows :
      (s : Sent) → c.state ≡ sending → Follows c sending (ssl_write_request a ctx c s)
  unfolding ssl_write_request
  ssl_write_request-Follows (count n) h = grind (arith, edges, wrote-Follows)
  ssl_write_request-Follows refused h = grind (arith, edges)

  send_request-Follows : (s : Sent) → c.state ≡ sending → Follows c sending (send_request a ctx c s)
  unfolding send_request
  send_request-Follows (count n) h = grind (arith, edges, wrote-Follows)
  send_request-Follows refused h = grind (arith, edges)

  ready_sending-Follows : c.state ≡ sending → Follows c sending (ready_sending a ctx c ev)
  unfolding ready_sending
  ready_sending-Follows h = grind (arith, edges, ssl_write_request-Follows, send_request-Follows)

  got_bytes-Follows : (d : Connection) → d.state ≡ receiving → Follows c receiving (got_bytes ctx d)
  unfolding got_bytes
  got_bytes-Follows d h = grind (arith, edges)

  read_bytes-Follows :
      (retry : Bool) (r : Option (List ℕ))
      → c.state ≡ receiving
      → Follows c receiving (read_bytes retry ctx c r)
  unfolding read_bytes
  read_bytes-Follows retry none h = grind (arith, edges)
  read_bytes-Follows retry (some []) h = grind (arith, edges)
  read_bytes-Follows retry (some (x ∷ xs)) h = got_bytes-Follows _ h

  read_socket-Follows :
      (r : Option (List ℕ)) → c.state ≡ receiving → Follows c receiving (read_socket a ctx c r)
  unfolding read_socket
  read_socket-Follows none h = grind (arith, edges)
  read_socket-Follows (some []) h = grind (arith, edges)
  read_socket-Follows (some (x ∷ xs)) h = got_bytes-Follows _ h

  ready_receiving-Follows : c.state ≡ receiving → Follows c receiving (ready_receiving a ctx c ev)
  unfolding ready_receiving
  ready_receiving-Follows h = grind (arith, edges, read_bytes-Follows, read_socket-Follows)

  dispatch-Follows : (s : ConnState) → c.state ≡ s → Follows c s (dispatch s args a ctx c ev)
  unfolding dispatch
  dispatch-Follows connecting h = ready_connecting-Follows h
  dispatch-Follows proxy_connect h = ready_proxy_connect-Follows h
  dispatch-Follows proxy_response h = ready_proxy_response-Follows h
  dispatch-Follows tls_handshake h = ready_tls_handshake-Follows h
  dispatch-Follows sending h = ready_sending-Follows h
  dispatch-Follows receiving h = ready_receiving-Follows h
  dispatch-Follows idle h = rw h stay
  dispatch-Follows completed h = rw h stay
  dispatch-Follows error h = rw h stay

-- A call changes nothing, marks the connection as failed, or does what its state asks for.
pub handle_ready_connection-cases {ℓ} :
    (P : Handled → Type ℓ) (args : Arguments) (a : Answers) (ctx : Bool) (c : Connection)
    (ev : Events) (epoll_fd : ℤ)
    → P (handled c ctx minus_one)
    → P (handled (fail c) ctx minus_one)
    → P (dispatch c.state args a ctx c ev)
    → P (handle_ready_connection args a ctx c ev epoll_fd)
unfolding handle_ready_connection
handle_ready_connection-cases P args a ctx c ev epoll_fd same failed acts =
    if_both P (not (is_nonneg epoll_fd)) same
      (if_both P (not a.ctl_del) same (if_both P ev.broken failed acts))

pub handle_ready_connection-acts :
    (args : Arguments) (a : Answers) (ctx : Bool) (c : Connection) (ev : Events) (epoll_fd : ℤ)
    (s : ConnState)
    → is_nonneg epoll_fd ≡ true
    → a.ctl_del ≡ true
    → ev.broken ≡ false
    → c.state ≡ s
    → handle_ready_connection args a ctx c ev epoll_fd ≡ dispatch s args a ctx c ev
unfolding handle_ready_connection
handle_ready_connection-acts args a ctx c ev epoll_fd s v d b h =
    simp (v, d, b) (ap (λ t. dispatch t args a ctx c ev) h)

-- Whatever the event and the answers of the system, one call of the handler leaves the connection in its state or moves it along one edge of the diagram: TLS and the proxy's states are entered only over https, a response is waited for only without the force flag, and a request completes without one only with it.
pub handle_ready_connection-Edge :
    (args : Arguments) (a : Answers) (ctx : Bool) (c : Connection) (ev : Events) (epoll_fd : ℤ)
    → Edge c.is_https c.force_flag c.state
        (handle_ready_connection args a ctx c ev epoll_fd).conn.state
unfolding handle_ready_connection
handle_ready_connection-Edge args a ctx c ev epoll_fd =
    grind (arith, stay, broken, dispatch-Follows args a ctx c ev c.state refl)

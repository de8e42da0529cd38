-- ===== src/Epoll/Ready/Keeps.antt =====
-- src/bench_epoll.c: what a call of the handler never changes.
use web_bench.Prelude.{ℕ, ◌≡◌, ◌∙◌, Bool, Option, none, some, List, [], ◌∷◌, arith}
use web_bench.Prelude.Int.{ℤ}
use web_bench.Arguments.{Arguments}
use web_bench.Connection.{
  ConnState, idle, connecting, proxy_connect, proxy_response, tls_handshake, sending, receiving,
  completed, error, Connection, Answers, Events, Handled, Sent, count, refused,
}
use web_bench.Epoll.Tls.{setup_ssl_context}
use web_bench.Epoll.Proxy.{
  send_proxy_connect, handle_proxy_response, send_connect, recv_response, read_response,
}
use web_bench.Epoll.Ready.{
  enter_tunnel, after_response, wants_retry, start_tls, ready_connecting, ready_proxy_connect,
  ready_proxy_response, ready_tls_handshake, ready_sending, ready_receiving, wrote,
  ssl_write_request, send_request, got_bytes, read_bytes, read_socket, dispatch,
  handle_ready_connection,
}
use web_bench.Epoll.Ready.Edges.{handle_ready_connection-cases}

pub record Keeps (c d : Connection) : Type 0 where
  pub sockfd : d.sockfd ≡ c.sockfd
  pub force_flag : d.force_flag ≡ c.force_flag
  pub is_https : d.is_https ≡ c.is_https
  pub request : d.request ≡ c.request
  pub request_len : d.request_len ≡ c.request_len

Keeps-through : {b c d : Connection} → Keeps b c → Keeps c d → Keeps b d
Keeps-through k l = record {
  sockfd = l.sockfd ∙ k.sockfd;
  force_flag = l.force_flag ∙ k.force_flag;
  is_https = l.is_https ∙ k.is_https;
  request = l.request ∙ k.request;
  request_len = l.request_len ∙ k.request_len;
}

Keeps-refl : (c : Connection) → Keeps c c
Keeps-refl c = ground arith

module _ (args : Arguments) (a : Answers) (ctx : Bool) (c : Connection) (ev : Events) where
  setup_ssl_context-Keeps : (d : Connection) → Keeps d (setup_ssl_context a ctx d).conn
  unfolding setup_ssl_context
  setup_ssl_context-Keeps d = ground arith

  start_tls-Keeps : Keeps c (start_tls a ctx c).conn
  unfolding start_tls setup_ssl_context
  start_tls-Keeps = ground arith

  ready_connecting-Keeps : Keeps c (ready_connecting args a ctx c ev).conn
  unfolding ready_connecting
  ready_connecting-Keeps = ground (arith, start_tls-Keeps)

  send_proxy_connect-Keeps : Keeps c (send_proxy_connect a ctx c args).conn
  unfolding send_proxy_connect send_connect
  send_proxy_connect-Keeps = ground arith

  ready_proxy_connect-Keeps : Keeps c (ready_proxy_connect args a ctx c ev).conn
  unfolding ready_proxy_connect
  ready_proxy_connect-Keeps =
      let k = send_proxy_connect-Keeps in
      let s = k.sockfd in
      let f = k.force_flag in
      let h = k.is_https in let r = k.request in let l = k.request_len in ground arith

  recv_response-Keeps : (r : Option (List ℕ)) → Keeps c (recv_response a ctx c r).conn
  unfolding recv_response read_response
  recv_response-Keeps none = ground arith
  recv_response-Keeps (some []) = ground arith
  recv_response-Keeps (some (x ∷ xs)) = ground arith

  handle_proxy_response-Keeps : Keeps c (handle_proxy_response a ctx c).conn
  unfolding handle_proxy_response
  handle_proxy_response-Keeps = ground (arith, recv_response-Keeps a.recv)

  after_response-Keeps : (got : Handled) → Keeps got.conn (after_response a got).conn
  unfolding after_response enter_tunnel setup_ssl_context
  after_response-Keeps got = ground arith

  ready_proxy_response-Keeps : Keeps c (ready_proxy_response a ctx c ev).conn
  unfolding ready_proxy_response
  ready_proxy_response-Keeps = ground (
    arith,
    Keeps-through handle_proxy_response-Keeps
        (after_response-Keeps (handle_proxy_response a ctx c)),
  )

  ready_tls_handshake-Keeps : Keeps c (ready_tls_handshake a ctx c ev).conn
  unfolding ready_tls_handshake
  ready_tls_handshake-Keeps = ground arith

  ssl_write_request-Keeps : (s : Sent) → Keeps c (ssl_write_request a ctx c s).conn
  unfolding ssl_write_request wrote
  ssl_write_request-Keeps (count n) = ground arith
  ssl_write_request-Keeps refused = ground arith

  send_request-Keeps : (s : Sent) → Keeps c (send_request a ctx c s).conn
  unfolding send_request wrote
  send_request-Keeps (count n) = ground arith
  send_request-Keeps refused = ground arith

  ready_sending-Keeps : Keeps c (ready_sending a ctx c ev).conn
  unfolding ready_sending
  ready_sending-Keeps =
      ground (arith, ssl_write_request-Keeps a.ssl_write, send_request-Keeps a.send)

  read_bytes-Keeps : (retry : Bool) (r : Option (List ℕ)) → Keeps c (read_bytes retry ctx c r).conn
  unfolding read_bytes got_bytes
  read_bytes-Keeps retry none = ground arith
  read_bytes-Keeps retry (some []) = ground arith
  read_bytes-Keeps retry (some (x ∷ xs)) = ground arith

  read_socket-Keeps : (r : Option (List ℕ)) → Keeps c (read_socket a ctx c r).conn
  unfolding read_socket got_bytes
  read_socket-Keeps none = ground arith
  read_socket-Keeps (some []) = ground arith
  read_socket-Keeps (some (x ∷ xs)) = ground arith

  ready_receiving-Keeps : Keeps c (ready_receiving a ctx c ev).conn
  unfolding ready_receiving
  ready_receiving-Keeps =
      ground
        (arith, read_bytes-Keeps (wants_retry a.ssl_error) a.ssl_read, read_socket-Keeps a.recv)

  dispatch-Keeps : (s : ConnState) → Keeps c (dispatch s args a ctx c ev).conn
  unfolding dispatch
  dispatch-Keeps connecting = ready_connecting-Keeps
  dispatch-Keeps proxy_connect = ready_proxy_connect-Keeps
  dispatch-Keeps proxy_response = ready_proxy_response-Keeps
  dispatch-Keeps tls_handshake = ready_tls_handshake-Keeps
  dispatch-Keeps sending = ready_sending-Keeps
  dispatch-Keeps receiving = ready_receiving-Keeps
  dispatch-Keeps idle = Keeps-refl c
  dispatch-Keeps completed = Keeps-refl c
  dispatch-Keeps error = Keeps-refl c

pub handle_ready_connection-Keeps :
    (args : Arguments) (a : Answers) (ctx : Bool) (c : Connection) (ev : Events) (epoll_fd : ℤ)
    → Keeps c (handle_ready_connection args a ctx c ev epoll_fd).conn
handle_ready_connection-Keeps args a ctx c ev epoll_fd =
    handle_ready_connection-cases (λ h. Keeps c h.conn) args a ctx c ev epoll_fd (Keeps-refl c)
      (ground arith) (dispatch-Keeps args a ctx c ev c.state)

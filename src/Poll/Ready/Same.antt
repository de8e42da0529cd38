-- ===== src/Poll/Ready/Same.antt =====
-- src/bench_poll.c and src/bench_epoll.c: the two handlers of an event, one beside the other.
use web_bench.Prelude.{ℕ, ◌≡◌, ◌≢◌, refl, ap, subst, Bool, true, false, List, arith, if◌then◌else◌}
use web_bench.Prelude.Int.{ℤ, pos, negsuc, is_nonneg, is_positive, minus_one}
use web_bench.Arguments.{Arguments}
use web_bench.Connection.{
  ConnState, idle, connecting, proxy_connect, proxy_response, tls_handshake, sending, receiving,
  completed, error, Connection, Answers, Events, Handled, handled, fail, count,
}
use web_bench.Epoll.Proxy as EpollProxy
use web_bench.Epoll.Proxy.{is_valid_port, connect_request}
use web_bench.Epoll.Ready as Epoll
use web_bench.Poll.Proxy.{
  is_port, need_connect_proxy, send_proxy_connect, send_connect, sent_connect,
  handle_proxy_response,
}
use web_bench.Poll.Ready.{
  ready_connecting, ready_proxy_connect, ready_proxy_response, ready_tls_handshake, ready_sending,
  ready_receiving, dispatch, handle_ready_connection,
}

-- The same effect; the returned numbers may differ.
pub record SameEffect (p e : Handled) : Type 0 where
  pub conn : p.conn ≡ e.conn
  pub ctx : p.ctx ≡ e.ctx
  pub out : p.out ≡ e.out

SameEffect-refl : (h : Handled) → SameEffect h h
SameEffect-refl h = record { conn = refl; ctx = refl; out = refl }

is_port-valid : (p : ℤ) → p ≢ pos 1 → is_port p ≡ is_valid_port p
is_port-valid (pos n) h = let apart : (n ≡ 1 → ⊥) = λ e. h (ap pos e) in ground arith
is_port-valid (negsuc n) h = refl

positive_nonneg : (p : ℤ) → is_positive p ≡ true → is_nonneg p ≡ true
positive_nonneg (pos n) h = refl
positive_nonneg (negsuc n) h = cc

need_connect_proxy-same :
    (args : Arguments)
    → args.proxy_port ≢ pos 1
    → need_connect_proxy args ≡ EpollProxy.need_connect_proxy args
unfolding need_connect_proxy EpollProxy.need_connect_proxy
need_connect_proxy-same args h = ground (arith, is_port-valid args.proxy_port h)

send_connect-same :
    (a : Answers) (ctx : Bool) (c : Connection) (request : List ℕ) (n : ℕ)
    → a.send ≡ count n
    → send_connect a ctx c request a.send ≡ EpollProxy.send_connect a ctx c request
unfolding send_connect sent_connect EpollProxy.send_connect
send_connect-same a ctx c request n h = simp h (ground arith)

module _ (args : Arguments) (a : Answers) (ctx : Bool) (c : Connection) (ev : Events)
    (proxy_port : args.proxy_port ≢ pos 1) (target_port : args.target_port ≢ pos 1)
    (open_socket : is_positive c.sockfd ≡ true) where
  send_proxy_connect-same :
      (n : ℕ)
      → a.send ≡ count n
      → send_proxy_connect a ctx c args ≡ EpollProxy.send_proxy_connect a ctx c args
  unfolding send_proxy_connect EpollProxy.send_proxy_connect
  send_proxy_connect-same n h = ground (
    arith,
    is_port-valid args.proxy_port proxy_port,
    is_port-valid args.target_port target_port,
    send_connect-same a ctx c (connect_request args.target_host args.target_port) n h,
  )

  handle_proxy_response-same :
      handle_proxy_response a ctx c ≡ EpollProxy.handle_proxy_response a ctx c
  unfolding handle_proxy_response EpollProxy.handle_proxy_response
  handle_proxy_response-same =
      let opened : is_nonneg c.sockfd ≡ true = positive_nonneg c.sockfd open_socket in
      simp (open_socket, opened) refl

  ready_connecting-same : ready_connecting args a ctx c ev ≡ Epoll.ready_connecting args a ctx c ev
  unfolding ready_connecting Epoll.ready_connecting
  ready_connecting-same = simp (need_connect_proxy-same args proxy_port) refl

  ready_proxy_connect-same :
      (n : ℕ)
      → a.send ≡ count n
      → ready_proxy_connect args a ctx c ev ≡ Epoll.ready_proxy_connect args a ctx c ev
  unfolding ready_proxy_connect Epoll.ready_proxy_connect
  ready_proxy_connect-same n h = simp (send_proxy_connect-same n h) refl

  ready_proxy_response-same :
      ready_proxy_response a ctx c ev ≡ Epoll.ready_proxy_response a ctx c ev
  unfolding ready_proxy_response Epoll.ready_proxy_response
  ready_proxy_response-same = simp (handle_proxy_response-same) refl

  ready_tls_handshake-same :
      SameEffect (ready_tls_handshake a ctx c ev) (Epoll.ready_tls_handshake a ctx c ev)
  unfolding ready_tls_handshake Epoll.ready_tls_handshake
  ready_tls_handshake-same = ground arith

  same : (p e : Handled) → p ≡ e → SameEffect p e
  same p e h = subst (SameEffect p) h (SameEffect-refl p)

  dispatch-same :
      (s : ConnState)
      → (s ≡ proxy_connect → (n : ℕ) × (a.send ≡ count n))
      → SameEffect (dispatch s args a ctx c ev) (Epoll.dispatch s args a ctx c ev)
  unfolding dispatch Epoll.dispatch ready_sending ready_receiving
  dispatch-same connecting k = same _ _ ready_connecting-same
  dispatch-same proxy_connect k = let (n, h) = k refl in same _ _ (ready_proxy_connect-same n h)
  dispatch-same proxy_response k = same _ _ ready_proxy_response-same
  dispatch-same tls_handshake k = ready_tls_handshake-same
  dispatch-same sending k = SameEffect-refl _
  dispatch-same receiving k = SameEffect-refl _
  dispatch-same idle k = SameEffect-refl _
  dispatch-same completed k = SameEffect-refl _
  dispatch-same error k = SameEffect-refl _

  -- On a connection with a descriptor, on ports other than 1, the handler of the poll engine and that of the epoll engine, where its epoll instance is valid and `epoll_ctl` succeeds, do the same to the connection and to the SSL context and put out the same bytes, if a CONNECT request that is sent is not refused by `send`.
  pub handle_ready_connection-SameEffect :
      (epoll_fd : ℤ)
      → is_nonneg epoll_fd ≡ true
      → a.ctl_del ≡ true
      → (c.state ≡ proxy_connect → (n : ℕ) × (a.send ≡ count n))
      → SameEffect
          (handle_ready_connection args a ctx c ev)
          (Epoll.handle_ready_connection args a ctx c ev epoll_fd)
  unfolding handle_ready_connection Epoll.handle_ready_connection
  handle_ready_connection-SameEffect epoll_fd v d k = simp (v, d) (go ev.broken)
    where
      go :
          (b : Bool)
          → SameEffect
              (if b then handled (fail c) ctx minus_one else dispatch c.state args a ctx c ev)
              (if b then handled (fail c) ctx minus_one else Epoll.dispatch c.state args a ctx c ev)
      go true = SameEffect-refl _
      go false = dispatch-same c.state k

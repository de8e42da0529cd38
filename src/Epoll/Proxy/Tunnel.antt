-- ===== src/Epoll/Proxy/Tunnel.antt =====
-- src/bench_epoll.c: the tunnel over many events: the CONNECT request is written whole, and the
-- TLS set-up behind it may fail unseen.
use web_bench.Prelude.{
  ℕ, ◌+◌, ◌-◌, ◌≤◌, ◌<◌, ◌≡◌, ◌⊎◌, inl, inr, refl, ap, sym, ◌∙◌, Bool, true, false, not, List, [],
  ◌∷◌, ◌++◌, length, take, arith, if_both, take-append_drop, take_all, append_assoc, append-nil,
}
use web_bench.Prelude.Int.{ℤ, pos, is_positive, is_nonneg, is_zero, equals}
use web_bench.Arguments.{Arguments}
use web_bench.Connection.{
  proxy_connect, proxy_response, tls_handshake, Connection, Answers, Events, Handled, handled,
  count,
}
use web_bench.Epoll.Tls.{setup_ssl_context}
use web_bench.Epoll.Proxy.{connect_request, send_proxy_connect, handle_proxy_response}
use web_bench.Epoll.Proxy.Laws.{Tunnels, send_proxy_connect-Step}
use web_bench.Epoll.Ready.{
  ready_proxy_connect, ready_proxy_response, ready_tls_handshake, after_response, enter_tunnel,
  dispatch, handle_ready_connection,
}
use web_bench.Epoll.Ready.Edges.{handle_ready_connection-acts}
use web_bench.Epoll.Ready.Wire.{run_events}

-- An event that only says that the socket can be written, on which `send` takes at least one byte and no more than it was given.
pub record Writes (args : Arguments) (epoll_fd : ℤ) (a : Answers) (ev : Events) (c : Connection)
    : Type 0 where
  pub valid : is_nonneg epoll_fd ≡ true
  pub removed : a.ctl_del ≡ true
  pub intact : ev.broken ≡ false
  pub writable : ev.writable ≡ true
  pub readable : ev.readable ≡ false
  pub size : ℕ
  pub send : a.send ≡ count size
  pub positive : 0 < size
  pub fits :
      c.state ≡ proxy_connect
      → size ≤ length (connect_request args.target_host args.target_port) - c.bytes_sent

abbrev pub AllWrite : Arguments → ℤ → Bool → Connection → List (Answers × Events) → Type 0
AllWrite args epoll_fd ctx c [] = Unit
AllWrite args epoll_fd ctx c ((a, ev) ∷ rest) =
    let h = handle_ready_connection args a ctx c ev epoll_fd in
    Writes args epoll_fd a ev c × AllWrite args epoll_fd h.ctx h.conn rest

-- A writable event in the proxy's two states.
record More (args : Arguments) (c : Connection) (h : Handled) : Type 0 where
  tunnels : Tunnels args h.conn
  state : h.conn.state ≡ proxy_connect
  longer : c.bytes_sent < h.conn.bytes_sent
  out :
      take c.bytes_sent (connect_request args.target_host args.target_port) ++ h.out
      ≡ take h.conn.bytes_sent (connect_request args.target_host args.target_port)

record Whole (args : Arguments) (c : Connection) (h : Handled) : Type 0 where
  state : h.conn.state ≡ proxy_response
  reset : h.conn.bytes_sent ≡ 0
  out :
      take c.bytes_sent (connect_request args.target_host args.target_port) ++ h.out
      ≡ connect_request args.target_host args.target_port

module _ (args : Arguments) (a : Answers) (ctx : Bool) (c : Connection) (ev : Events) (epoll_fd : ℤ)
    (w : Writes args epoll_fd a ev c) where
  ready_proxy_connect-Step :
      (t : Tunnels args c)
      → c.state ≡ proxy_connect
      → More args c (ready_proxy_connect args a ctx c ev)
        ⊎ Whole args c (ready_proxy_connect args a ctx c ev)
  unfolding ready_proxy_connect
  ready_proxy_connect-Step t h =
      let s = send_proxy_connect a ctx c args in
      let request = connect_request args.target_host args.target_port in
      let fits = w.fits h in
      let step = send_proxy_connect-Step args a ctx c t w.size w.send w.positive fits in
      let sent = t.sent in
      let piece : take c.bytes_sent request ++ s.out ≡ take (c.bytes_sent + w.size) request =
        ap (λ o. take c.bytes_sent request ++ o) step.out
        ∙ take-append_drop c.bytes_sent w.size request (omega arith) in
      elim step.moves [
        | inl (r, z, k) ↦
            let test : is_positive s.ret ≡ true = ap is_positive r in
            let all : take (c.bytes_sent + w.size) request ≡ request = take_all _ request k in
            rw (w.writable, test) (inr (record { state = refl; reset = z; out = piece ∙ all }))
        | inr (r, z, k) ↦
            let test : is_positive s.ret ≡ false = ap is_positive r in
            let test' : is_zero s.ret ≡ true = ap is_zero r in
            rw (w.writable, test, test')
              (inl (record {
                tunnels = record {
                  proxy = t.proxy;
                  target = t.target;
                  proxy_port = t.proxy_port;
                  target_port = t.target_port;
                  socket = ap is_positive step.sockfd ∙ t.socket;
                  sent = omega (arith, z);
                };
                state = step.state ∙ h;
                longer = omega (arith, z, w.positive);
                out = piece ∙ ap (λ k. take k request) (sym z);
              }))
      ]

  handle_ready_connection-writes :
      Tunnels args c
      → c.state ≡ proxy_connect
      → More args c (handle_ready_connection args a ctx c ev epoll_fd)
        ⊎ Whole args c (handle_ready_connection args a ctx c ev epoll_fd)
  unfolding dispatch
  handle_ready_connection-writes t h =
      rw
        (handle_ready_connection-acts args a ctx c ev epoll_fd proxy_connect w.valid w.removed
          w.intact h)
        (ready_proxy_connect-Step t h)

  handle_ready_connection-waits :
      c.state ≡ proxy_response
      → handle_ready_connection args a ctx c ev epoll_fd ≡ handled c ctx (pos 0)
  unfolding dispatch ready_proxy_response
  handle_ready_connection-waits h =
      handle_ready_connection-acts args a ctx c ev epoll_fd proxy_response w.valid w.removed
        w.intact h
      ∙ rw w.readable refl

written :
    (args : Arguments) (epoll_fd : ℤ) (ctx : Bool) (c : Connection) (es : List (Answers × Events))
    → AllWrite args epoll_fd ctx c es
    → c.state ≡ proxy_response
    → ((run_events args epoll_fd ctx c es).conn ≡ c)
      × ((run_events args epoll_fd ctx c es).out ≡ [])
unfolding run_events
written args epoll_fd ctx c [] w h = (refl, refl)
written args epoll_fd ctx c ((a, ev) ∷ rest) w h =
    let x = handle_ready_connection args a ctx c ev epoll_fd in
    let e = handle_ready_connection-waits args a ctx c ev epoll_fd w.0 h in
    let (same, none_out) =
      written args epoll_fd x.ctx x.conn rest w.1 (ap (λ (y : Handled). y.conn.state) e ∙ h) in
    (
      same ∙ ap (λ (y : Handled). y.conn) e,
      ap (λ (y : Handled). y.out ++ (run_events args epoll_fd x.ctx x.conn rest).out) e ∙ none_out,
    )

-- From any point of writing the CONNECT request, over at least as many writable events as bytes are left, on each of which `send` takes at least one byte: what is written is exactly the rest of the CONNECT request, and the connection then waits for the proxy's answer, with `bytes_sent` reset for the request itself.
pub run_events-connect :
    (args : Arguments) (epoll_fd : ℤ) (ctx : Bool) (c : Connection) (es : List (Answers × Events))
    → Tunnels args c
    → c.state ≡ proxy_connect
    → AllWrite args epoll_fd ctx c es
    → length (connect_request args.target_host args.target_port) ≤ c.bytes_sent + length es
    → (take c.bytes_sent (connect_request args.target_host args.target_port)
          ++ (run_events args epoll_fd ctx c es).out
        ≡ connect_request args.target_host args.target_port)
      × ((run_events args epoll_fd ctx c es).conn.state ≡ proxy_response)
      × ((run_events args epoll_fd ctx c es).conn.bytes_sent ≡ 0)
unfolding run_events
run_events-connect args epoll_fd ctx c [] t h w n = absurd (omega (arith, t.sent))
run_events-connect args epoll_fd ctx c ((a, ev) ∷ rest) t h w n =
    let x = handle_ready_connection args a ctx c ev epoll_fd in
    let request = connect_request args.target_host args.target_port in
    let later = run_events args epoll_fd x.ctx x.conn rest in
    let split = sym (append_assoc (take c.bytes_sent request) x.out later.out) in
    elim (handle_ready_connection-writes args a ctx c ev epoll_fd w.0 t h) [
      | inl more ↦
          let (out, state, reset) =
            run_events-connect args epoll_fd x.ctx x.conn rest more.tunnels more.state w.1
              (omega (arith, more.longer)) in
          (split ∙ ap (λ o. o ++ later.out) more.out ∙ out, state, reset)
      | inr whole ↦
          let (same, none_out) = written args epoll_fd x.ctx x.conn rest w.1 whole.state in
          (
            split
                ∙ ap (λ o. o ++ later.out) whole.out
                ∙ ap (λ o. request ++ o) none_out
                ∙ append-nil request,
            ap (λ (d : Connection). d.state) same ∙ whole.state,
            ap (λ (d : Connection). d.bytes_sent) same ∙ whole.reset,
          )
    ]

-- Events that are no error and no hang-up.
abbrev pub AllIntact : ℤ → List (Answers × Events) → Type 0
AllIntact epoll_fd [] = Unit
AllIntact epoll_fd ((a, ev) ∷ rest) = (ev.broken ≡ false) × AllIntact epoll_fd rest

handshake_waits :
    (args : Arguments) (a : Answers) (ctx : Bool) (c : Connection) (ev : Events) (epoll_fd : ℤ)
    → ev.broken ≡ false
    → c.state ≡ tls_handshake
    → c.ssl ≡ false
    → (handle_ready_connection args a ctx c ev epoll_fd).conn ≡ c
unfolding handle_ready_connection dispatch ready_tls_handshake
handshake_waits args a ctx c ev epoll_fd i h s =
    if_both (λ (x : Handled). x.conn ≡ c) (not (is_nonneg epoll_fd)) refl
      (if_both (λ (x : Handled). x.conn ≡ c) (not a.ctl_del) refl
        (simp i (ap (λ t. (dispatch t args a ctx c ev).conn) h ∙ simp s refl)))

no_ssl-stuck :
    (args : Arguments) (epoll_fd : ℤ) (ctx : Bool) (c : Connection) (es : List (Answers × Events))
    → AllIntact epoll_fd es
    → c.state ≡ tls_handshake
    → c.ssl ≡ false
    → (run_events args epoll_fd ctx c es).conn ≡ c
unfolding run_events
no_ssl-stuck args epoll_fd ctx c [] i h s = refl
no_ssl-stuck args epoll_fd ctx c ((a, ev) ∷ rest) i h s =
    let x = handle_ready_connection args a ctx c ev epoll_fd in
    let e = handshake_waits args a ctx c ev epoll_fd i.0 h s in
    no_ssl-stuck args epoll_fd x.ctx x.conn rest i.1 (ap (λ (d : Connection). d.state) e ∙ h)
      (ap (λ (d : Connection). d.ssl) e ∙ s)
    ∙ e

enter_tunnel-no_ssl :
    (a : Answers) (got : Handled)
    → got.conn.ssl ≡ false
    → a.ssl_new ≡ false
    → ((enter_tunnel a got).ret ≡ pos 0)
      × ((enter_tunnel a got).conn.state ≡ tls_handshake)
      × ((enter_tunnel a got).conn.ssl ≡ false)
unfolding enter_tunnel setup_ssl_context
enter_tunnel-no_ssl a got s n = ground arith

-- If no SSL object can be made once the proxy has answered, the call that reads the answer returns 0 all the same, and the connection stays in the handshake, with its counters as they were, over any events that are no error and no hang-up.
pub ready_proxy_response-stuck :
    (args : Arguments) (epoll_fd : ℤ) (a : Answers) (ctx : Bool) (c : Connection) (ev : Events)
    (es : List (Answers × Events))
    → ev.readable ≡ true
    → (handle_proxy_response a ctx c).ret ≡ pos 1
    → (handle_proxy_response a ctx c).conn.ssl ≡ false
    → a.ssl_new ≡ false
    → AllIntact epoll_fd es
    → ((ready_proxy_response a ctx c ev).ret ≡ pos 0)
      × ((ready_proxy_response a ctx c ev).conn.state ≡ tls_handshake)
      × ((run_events args epoll_fd
            (ready_proxy_response a ctx c ev).ctx
            (ready_proxy_response a ctx c ev).conn
            es).conn
          ≡ (ready_proxy_response a ctx c ev).conn)
unfolding ready_proxy_response after_response
ready_proxy_response-stuck args epoll_fd a ctx c ev es r p s n i =
    let test : equals 1 (handle_proxy_response a ctx c).ret ≡ true = ap (equals 1) p in
    let e : ready_proxy_response a ctx c ev ≡ enter_tunnel a (handle_proxy_response a ctx c) =
      rw (r, test) refl in
    let (ret, state, no_ssl) = enter_tunnel-no_ssl a (handle_proxy_response a ctx c) s n in
    (
      ap (λ (x : Handled). x.ret) e ∙ ret,
      ap (λ (x : Handled). x.conn.state) e ∙ state,
      no_ssl-stuck args epoll_fd _ _ es i (ap (λ (x : Handled). x.conn.state) e ∙ state)
          (ap (λ (x : Handled). x.conn.ssl) e ∙ no_ssl),
    )

-- ===== src/Epoll/Ready/Wire.antt =====
-- src/bench_epoll.c: the bytes that a connection writes, over any number of events.
use mathlib.Core.Bool.{false≢true}
use web_bench.Prelude.{
  take-append_drop, if_both, ℕ, ◌+◌, ◌-◌, ◌≤◌, ◌≡◌, refl, ap, sym, ◌∙◌, Bool, true, false, Option,
  none, some, List, [], ◌∷◌, ◌++◌, take, drop, arith, append-nil, append_assoc, take_all, ltb,
}
use web_bench.Prelude.Int.{ℤ, pos, add_size}
use web_bench.Arguments.{Arguments}
use web_bench.Connection.{
  ConnState, idle, connecting, proxy_connect, proxy_response, tls_handshake, sending, receiving,
  completed, error, Connection, Answers, Events, Handled, handled, Sent, count, refused,
}
use web_bench.Epoll.Proxy.{receive}
use web_bench.Epoll.Ready.{
  wants_retry, ready_sending, ready_receiving, wrote, retry_or_error, ssl_write_request,
  send_request, got_bytes, read_bytes, read_socket, dispatch, handle_ready_connection,
}
use web_bench.Epoll.Ready.Edges.{handle_ready_connection-cases}
use web_bench.Epoll.WellFormed.{WellFormed, Obeys, sent_count}
use web_bench.Epoll.WellFormed.Handler.{handle_ready_connection-WellFormed}

-- The states from the sending of the request on.
abbrev pub is_late : ConnState → Bool
is_late sending = true
is_late receiving = true
is_late completed = true
is_late error = true
is_late _ = false

-- The states that a request reaches by being sent.
abbrev pub is_sent : ConnState → Bool
is_sent receiving = true
is_sent completed = true
is_sent _ = false

-- What has been taken from the body so far grows by what a call puts out.
record Piece (body : List ℕ) (c : Connection) (h : Handled) : Type 0 where
  late : is_late h.conn.state ≡ true
  piece : take c.bytes_sent body ++ h.out ≡ take h.conn.bytes_sent body
  whole : is_sent h.conn.state ≡ true → h.conn.bytes_sent ≡ h.conn.request_len

module _ (args : Arguments) (body : List ℕ) (a : Answers) (ctx : Bool) (c : Connection)
    (ev : Events) (w : WellFormed args body c) (o : Obeys args a c) where
  -- Nothing is written.
  no_piece :
      (d : Connection)
      → d.bytes_sent ≡ c.bytes_sent
      → take c.bytes_sent body ++ [] ≡ take d.bytes_sent body
  no_piece d e = append-nil (take c.bytes_sent body) ∙ ap (λ k. take k body) (sym e)

  wrote-Piece :
      (n : ℕ) → n ≤ c.request_len - c.bytes_sent → c.state ≡ sending → Piece body c (wrote ctx c n)
  unfolding wrote
  wrote-Piece n k h =
      let len = w.request_len in
      let small = w.short in
      let request = w.request in
      let sent = w.sent in
      let bound : c.bytes_sent ≤ c.request_len = ground arith in
      let size : add_size c.bytes_sent n ≡ c.bytes_sent + n = omega arith in
      let next : take c.bytes_sent body ++ take n (drop c.bytes_sent c.request)
          ≡ take (add_size c.bytes_sent n) body =
        rw (request, size) (take-append_drop c.bytes_sent n body (omega arith)) in
      ground arith

  retry_or_error-Piece :
      (retry : Bool) → c.state ≡ sending → Piece body c (retry_or_error retry ctx c)
  retry_or_error-Piece retry h = ground (arith, no_piece c refl)

  ssl_write_request-Piece :
      (s : Sent)
      → sent_count s ≤ c.request_len - c.bytes_sent
      → c.state ≡ sending
      → Piece body c (ssl_write_request a ctx c s)
  unfolding ssl_write_request
  ssl_write_request-Piece (count n) k h =
      if_both (Piece body c) (ltb 0 n) (wrote-Piece n k h) (retry_or_error-Piece _ h)
  ssl_write_request-Piece refused k h = retry_or_error-Piece _ h

  send_request-Piece :
      (s : Sent)
      → sent_count s ≤ c.request_len - c.bytes_sent
      → c.state ≡ sending
      → Piece body c (send_request a ctx c s)
  unfolding send_request
  send_request-Piece (count n) k h =
      if_both (Piece body c) (ltb 0 n) (wrote-Piece n k h) (retry_or_error-Piece false h)
  send_request-Piece refused k h = retry_or_error-Piece _ h

  ready_sending-Piece : c.state ≡ sending → Piece body c (ready_sending a ctx c ev)
  unfolding ready_sending
  ready_sending-Piece h =
      let bound : c.bytes_sent ≤ c.request_len = let sent = w.sent in ground arith in
      let fits : sent_count a.send ≤ c.request_len - c.bytes_sent =
        let given = o.send in ground arith in
      ground (
        arith,
        no_piece c refl,
        ssl_write_request-Piece a.ssl_write o.ssl_write h,
        send_request-Piece a.send fits h,
      )

  got_bytes-Piece :
      (new : List ℕ)
      → c.state ≡ receiving
      → c.bytes_sent ≡ c.request_len
      → Piece body c (got_bytes ctx (receive c new))
  unfolding got_bytes
  got_bytes-Piece new h e = ground (arith, no_piece c refl)

  read_bytes-Piece :
      (retry : Bool) (r : Option (List ℕ))
      → c.state ≡ receiving
      → c.bytes_sent ≡ c.request_len
      → Piece body c (read_bytes retry ctx c r)
  unfolding read_bytes
  read_bytes-Piece retry none h e = ground (arith, no_piece c refl)
  read_bytes-Piece retry (some []) h e = ground (arith, no_piece c refl)
  read_bytes-Piece retry (some (x ∷ xs)) h e = got_bytes-Piece (x ∷ xs) h e

  read_socket-Piece :
      (r : Option (List ℕ))
      → c.state ≡ receiving
      → c.bytes_sent ≡ c.request_len
      → Piece body c (read_socket a ctx c r)
  unfolding read_socket
  read_socket-Piece none h e = ground (arith, no_piece c refl)
  read_socket-Piece (some []) h e = ground (arith, no_piece c refl)
  read_socket-Piece (some (x ∷ xs)) h e = got_bytes-Piece (x ∷ xs) h e

  ready_receiving-Piece :
      c.state ≡ receiving → c.bytes_sent ≡ c.request_len → Piece body c (ready_receiving a ctx c ev)
  unfolding ready_receiving
  ready_receiving-Piece h e = ground (
    arith,
    no_piece c refl,
    read_bytes-Piece (wants_retry a.ssl_error) a.ssl_read h e,
    read_socket-Piece a.recv h e,
  )

  dispatch-Piece :
      (s : ConnState)
      → c.state ≡ s
      → is_late s ≡ true
      → (is_sent s ≡ true → c.bytes_sent ≡ c.request_len)
      → Piece body c (dispatch s args a ctx c ev)
  unfolding dispatch
  dispatch-Piece sending h l e = ready_sending-Piece h
  dispatch-Piece receiving h l e = ready_receiving-Piece h (e refl)
  dispatch-Piece completed h l e = ground (arith, no_piece c refl, e refl)
  dispatch-Piece error h l e = ground (arith, no_piece c refl)
  dispatch-Piece idle h l e = cc
  dispatch-Piece connecting h l e = cc
  dispatch-Piece proxy_connect h l e = cc
  dispatch-Piece proxy_response h l e = cc
  dispatch-Piece tls_handshake h l e = cc

  handle_ready_connection-Piece :
      (epoll_fd : ℤ)
      → is_late c.state ≡ true
      → (is_sent c.state ≡ true → c.bytes_sent ≡ c.request_len)
      → Piece body c (handle_ready_connection args a ctx c ev epoll_fd)
  handle_ready_connection-Piece epoll_fd l e =
      handle_ready_connection-cases (Piece body c) args a ctx c ev epoll_fd
        (record { late = l; piece = no_piece c refl; whole = e })
        (record { late = refl; piece = no_piece c refl; whole = λ s. absurd (false≢true s) })
        (dispatch-Piece c.state refl l e)

-- Events of one connection, one after the other, each with what the system answers.
unfoldable pub run_events : Arguments → ℤ → Bool → Connection → List (Answers × Events) → Handled
run_events args epoll_fd ctx c [] = handled c ctx (pos 0)
run_events args epoll_fd ctx c ((a, ev) ∷ rest) =
    let h = handle_ready_connection args a ctx c ev epoll_fd in
    let later = run_events args epoll_fd h.ctx h.conn rest in
    record later { out = h.out ++ later.out }

-- The system keeps its promise at each of the events.
abbrev pub AllObey : Arguments → ℤ → Bool → Connection → List (Answers × Events) → Type 0
AllObey args epoll_fd ctx c [] = Unit
AllObey args epoll_fd ctx c ((a, ev) ∷ rest) =
    let h = handle_ready_connection args a ctx c ev epoll_fd in
    Obeys args a c × AllObey args epoll_fd h.ctx h.conn rest

run_events-Piece :
    (args : Arguments) (body : List ℕ) (epoll_fd : ℤ) (ctx : Bool) (c : Connection)
    (es : List (Answers × Events))
    → WellFormed args body c
    → AllObey args epoll_fd ctx c es
    → is_late c.state ≡ true
    → (is_sent c.state ≡ true → c.bytes_sent ≡ c.request_len)
    → Piece body c (run_events args epoll_fd ctx c es)
      × WellFormed args body (run_events args epoll_fd ctx c es).conn
unfolding run_events
run_events-Piece args body epoll_fd ctx c [] w o l e =
    (record { late = l; piece = append-nil (take c.bytes_sent body); whole = e }, w)
run_events-Piece args body epoll_fd ctx c ((a, ev) ∷ rest) w o l e =
    let h = handle_ready_connection args a ctx c ev epoll_fd in
    let p = handle_ready_connection-Piece args body a ctx c ev w o.0 epoll_fd l e in
    let w' = handle_ready_connection-WellFormed args body a ctx c ev epoll_fd w o.0 in
    let (q, w'') = run_events-Piece args body epoll_fd h.ctx h.conn rest w' o.1 p.late p.whole in
    (
      record {
        late = q.late;
        piece =
            sym (
              append_assoc (take c.bytes_sent body) h.out
                (run_events args epoll_fd h.ctx h.conn rest).out)
            ∙ ap (λ t. t ++ (run_events args epoll_fd h.ctx h.conn rest).out) p.piece
            ∙ q.piece;
        whole = q.whole;
      },
      w'',
    )

-- From the start of the sending state, over any events, the bytes that the system takes are a first part of the body, in order and without repetition, as long as `bytes_sent` says; and a connection that is then receiving or completed has had the whole body taken, exactly once.
pub run_events-body :
    (args : Arguments) (body : List ℕ) (epoll_fd : ℤ) (ctx : Bool) (c : Connection)
    (es : List (Answers × Events))
    → WellFormed args body c
    → AllObey args epoll_fd ctx c es
    → c.state ≡ sending
    → c.bytes_sent ≡ 0
    → ((run_events args epoll_fd ctx c es).out
        ≡ take (run_events args epoll_fd ctx c es).conn.bytes_sent body)
      × (is_sent (run_events args epoll_fd ctx c es).conn.state ≡ true
          → (run_events args epoll_fd ctx c es).out ≡ body)
run_events-body args body epoll_fd ctx c es w o h z =
    let (p, w') =
      run_events-Piece args body epoll_fd ctx c es w o (rw h)
        (λ s. absurd (false≢true (rw h at s))) in
    let taken : (run_events args epoll_fd ctx c es).out
        ≡ take (run_events args epoll_fd ctx c es).conn.bytes_sent body =
      ap (λ k. take k body ++ (run_events args epoll_fd ctx c es).out) (sym z) ∙ p.piece in
    (taken, λ s. taken ∙ take_all _ body (omega (arith, p.whole s, w'.request_len)))

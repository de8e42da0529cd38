-- ===== src/Select/Ready/Plain.antt =====
-- src/bench_select.c and src/bench_poll.c: the two handlers on connections over plain HTTP.
use web_bench.Prelude.{
  ℕ, ◌+◌, ◌-◌, ◌<◌, ◌≤◌, ◌≡◌, refl, ap, subst, ◌∙◌, Bool, true, false, not, Option, none, some,
  List, [], ◌∷◌, arith, length, leb, Bool-cases, inl, inr, done,
}
use web_bench.Prelude.Int.{pos, is_positive, add_size, to_int}
use web_bench.Arguments.{Arguments}
use web_bench.Connection.{
  ConnState, idle, connecting, proxy_connect, proxy_response, tls_handshake, sending, receiving,
  completed, error, Connection, Answers, Events, Handled, handled, Sent, count, refused,
  recv_buffer_size,
}
use web_bench.Epoll.Ready as Epoll
use web_bench.Epoll.Proxy as Proxy
use web_bench.Epoll.Proxy.{remaining_recv}
use web_bench.Epoll.WellFormed.{
  WellFormed, Obeys, sent_count, recv_count, written_length, sent_limit,
}
use web_bench.Poll.Ready as Poll
use web_bench.Poll.Ready.Same.{SameEffect}
use web_bench.Select.Ready.{
  ready_connecting, wrote, send_request, ready_sending, receive, got_bytes, recv_response,
  ready_receiving, dispatch, events_of, handle_ready_connection,
}

-- The states of a connection without TLS and without a tunnel.
abbrev pub is_plain : ConnState → Bool
is_plain proxy_connect = false
is_plain proxy_response = false
is_plain tls_handshake = false
is_plain _ = true

same : (h : Handled) → SameEffect h h
same h = record { conn = refl; ctx = refl; out = refl }

module _ (args : Arguments) (body : List ℕ) (a : Answers) (ctx : Bool) (c : Connection)
    (ev : Events) (w : WellFormed args body c) (o : Obeys args a c) (plain : c.is_https ≡ false)
    (room : c.bytes_received < recv_buffer_size - 1) where
  ready_connecting-plain :
      SameEffect (ready_connecting args a ctx c ev) (Poll.ready_connecting args a ctx c ev)
  unfolding ready_connecting Poll.ready_connecting
  ready_connecting-plain = let secure = w.secure in ground arith

  wrote-plain :
      (n : ℕ)
      → c.state ≡ sending
      → n ≤ c.request_len - c.bytes_sent
      → wrote ctx c n ≡ Epoll.wrote ctx c n
  unfolding wrote Epoll.wrote
  wrote-plain n s k =
      let len = w.request_len in
      let small = w.short in
      let sent = w.sent in
      let size : add_size c.bytes_sent n ≡ c.bytes_sent + n = ground arith in
      elim (Bool-cases (leb c.request_len (c.bytes_sent + n))) [
        | inl e ↦ rw (size, e) refl
        | inr e ↦ rw (size, e) refl
      ]

  send_request-plain :
      (s : Sent)
      → c.state ≡ sending
      → sent_count s ≤ c.request_len - c.bytes_sent
      → send_request a ctx c s ≡ Epoll.send_request a ctx c s
  unfolding send_request Epoll.send_request
  send_request-plain refused s k = refl
  send_request-plain (count n) s k = simp (wrote-plain n s k) refl

  sends : c.state ≡ sending → sent_count a.send ≤ c.request_len - c.bytes_sent
  sends s = subst (λ st. sent_count a.send ≤ written_length args c st - c.bytes_sent) s o.send

  in_request : c.state ≡ sending → c.bytes_sent ≤ c.request_len
  in_request s = subst (λ st. c.bytes_sent ≤ sent_limit args c st) s w.sent

  whole :
      c.state ≡ sending
      → not (is_positive (Epoll.remaining_send c)) ≡ leb c.request_len c.bytes_sent
  whole s =
      let len = w.request_len in let small = w.short in let sent = in_request s in ground arith

  ready_sending-plain :
      c.state ≡ sending → SameEffect (ready_sending a ctx c ev) (Poll.ready_sending a ctx c ev)
  unfolding ready_sending Poll.ready_sending Epoll.ready_sending
  ready_sending-plain s = simp (whole s, plain, send_request-plain a.send s (sends s)) (same _)

  room_left :
      not (is_positive (to_int (remaining_recv c))) ≡ leb (recv_buffer_size - 1) c.bytes_received
  room_left = ground arith

  receive-plain :
      (new : List ℕ)
      → length new ≤ recv_buffer_size - 1 - c.bytes_received
      → receive c new ≡ Proxy.receive c new
  receive-plain new k =
      let size : add_size c.bytes_received (length new) ≡ c.bytes_received + length new =
        ground arith in
      rw size refl

  got_bytes-plain : (c' : Connection) → got_bytes ctx c' ≡ Epoll.got_bytes ctx c'
  unfolding got_bytes Epoll.got_bytes
  got_bytes-plain c' = refl

  recv_response-plain :
      (r : Option (List ℕ))
      → recv_count r ≤ recv_buffer_size - 1 - c.bytes_received
      → recv_response a ctx c r ≡ Epoll.read_socket a ctx c r
  unfolding recv_response Epoll.read_socket
  recv_response-plain none k = refl
  recv_response-plain (some []) k = refl
  recv_response-plain (some (x ∷ xs)) k =
      ap (got_bytes ctx) (receive-plain (x ∷ xs) k) ∙ got_bytes-plain (Proxy.receive c (x ∷ xs))

  ready_receiving-plain : SameEffect (ready_receiving a ctx c ev) (Poll.ready_receiving a ctx c ev)
  unfolding ready_receiving Poll.ready_receiving Epoll.ready_receiving
  ready_receiving-plain =
      let left : leb (recv_buffer_size - 1) c.bytes_received ≡ false = ground arith in
      simp (room_left, left, plain, recv_response-plain a.recv o.recv) (same _)

  dispatch-plain :
      is_plain c.state ≡ true
      → (h : Handled) × (dispatch c.state args a ctx c ev ≡ done h)
        × SameEffect h (Poll.dispatch c.state args a ctx c ev)
  unfolding dispatch Poll.dispatch
  dispatch-plain p = go c.state p (λ e. e)
    where
      go :
          (s : ConnState)
          → is_plain s ≡ true
          → (s ≡ sending → c.state ≡ sending)
          → (h : Handled) × (dispatch s args a ctx c ev ≡ done h)
            × SameEffect h (Poll.dispatch s args a ctx c ev)
      go connecting p k = (ready_connecting args a ctx c ev, refl, ready_connecting-plain)
      go sending p k = (ready_sending a ctx c ev, refl, ready_sending-plain (k refl))
      go receiving p k = (ready_receiving a ctx c ev, refl, ready_receiving-plain)
      go idle p k = (handled c ctx (pos 0), refl, same _)
      go completed p k = (handled c ctx (pos 0), refl, same _)
      go error p k = (handled c ctx (pos 0), refl, same _)
      go proxy_connect p k = cc
      go proxy_response p k = cc
      go tls_handshake p k = cc

module _ (args : Arguments) (body : List ℕ) (a : Answers) (ctx : Bool) (c : Connection)
    (w : WellFormed args body c) (o : Obeys args a c) where
  -- On a well-formed connection over plain HTTP, outside the states of a tunnel and of TLS, with room left in its buffer, and where the system takes and gives no more bytes than it is asked to, the handler of the select engine returns, and does the same to the connection and to the SSL context and puts out the same bytes as that of the poll engine on the events that the sets show: its number for the bytes sent, its test for a whole request and its test for a full buffer agree with those of the poll engine.
  pub handle_ready_connection-plain :
      (read write : List ℕ)
      → c.is_https ≡ false
      → c.bytes_received < recv_buffer_size - 1
      → is_plain c.state ≡ true
      → (h : Handled) × (handle_ready_connection args a ctx c read write ≡ done h)
        × SameEffect h (Poll.handle_ready_connection args a ctx c (events_of read write c.sockfd))
  unfolding handle_ready_connection Poll.handle_ready_connection
  handle_ready_connection-plain read write plain room p =
      dispatch-plain args body a ctx c (events_of read write c.sockfd) w o plain room p

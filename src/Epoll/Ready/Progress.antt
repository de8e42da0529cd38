-- ===== src/Epoll/Ready/Progress.antt =====
-- src/bench_epoll.c: a reception comes to its end.
use web_bench.Prelude.{
  ℕ, ◌+◌, ◌-◌, ◌≤◌, ◌<◌, ◌≡◌, ◌⊎◌, inl, inr, refl, ap, ◌∙◌, Bool, true, false, Option, none, some,
  List, [], ◌∷◌, length, arith, if◌then◌else◌,
}
use web_bench.Prelude.Int.{ℤ, pos, is_nonneg, add_int}
use web_bench.Arguments.{Arguments}
use web_bench.Connection.{
  receiving, completed, Connection, Answers, Events, Handled, handled, recv_buffer_size,
}
use web_bench.Epoll.Proxy.{receive}
use web_bench.Epoll.Ready.{
  wants_retry, ready_receiving, got_bytes, read_bytes, read_socket, dispatch,
  handle_ready_connection,
}
use web_bench.Epoll.Ready.Edges.{handle_ready_connection-acts}
use web_bench.Epoll.Ready.Wire.{run_events, AllObey}
use web_bench.Epoll.WellFormed.{WellFormed, Obeys, recv_count}
use web_bench.Epoll.WellFormed.Handler.{handle_ready_connection-WellFormed}

-- The read that a connection makes.
abbrev pub incoming : Answers → Connection → Option (List ℕ)
incoming a c = if c.is_https then a.ssl_read else a.recv

-- An event on which there is something to read, if there is room for it.
pub record Feeds (epoll_fd : ℤ) (a : Answers) (ev : Events) (c : Connection) : Type 0 where
  pub valid : is_nonneg epoll_fd ≡ true
  pub removed : a.ctl_del ≡ true
  pub intact : ev.broken ≡ false
  pub readable : ev.readable ≡ true
  pub data_ready : c.bytes_received < recv_buffer_size - 1 → 0 < recv_count (incoming a c)

abbrev pub AllFeed : Arguments → ℤ → Bool → Connection → List (Answers × Events) → Type 0
AllFeed args epoll_fd ctx c [] = Unit
AllFeed args epoll_fd ctx c ((a, ev) ∷ rest) =
    let h = handle_ready_connection args a ctx c ev epoll_fd in
    Feeds epoll_fd a ev c × AllFeed args epoll_fd h.ctx h.conn rest

-- Either the response is counted, or more of it is there.
record Longer (c d : Connection) : Type 0 where
  state : d.state ≡ receiving
  longer : c.bytes_received < d.bytes_received
  speed : d.speed ≡ c.speed

record Ended (c d : Connection) : Type 0 where
  state : d.state ≡ completed
  speed : d.speed ≡ add_int c.speed 1

abbrev Advances : Connection → Handled → Type 0
Advances c h = Longer c h.conn ⊎ Ended c h.conn

module _ (args : Arguments) (body : List ℕ) (a : Answers) (ctx : Bool) (c : Connection)
    (ev : Events) (w : WellFormed args body c) (o : Obeys args a c) where
  got_bytes-Advances :
      (new : List ℕ)
      → 0 < length new
      → length new ≤ recv_buffer_size - 1 - c.bytes_received
      → c.state ≡ receiving
      → Advances c (got_bytes ctx (receive c new))
  unfolding got_bytes
  got_bytes-Advances new n k h = let m = w.received in ground arith

  read_bytes-Advances :
      (retry : Bool) (r : Option (List ℕ))
      → 0 < recv_count r
      → recv_count r ≤ recv_buffer_size - 1 - c.bytes_received
      → c.state ≡ receiving
      → Advances c (read_bytes retry ctx c r)
  unfolding read_bytes
  read_bytes-Advances retry none n k h = absurd (omega arith)
  read_bytes-Advances retry (some []) n k h = absurd (omega arith)
  read_bytes-Advances retry (some (x ∷ xs)) n k h = got_bytes-Advances (x ∷ xs) n k h

  read_socket-Advances :
      (r : Option (List ℕ))
      → 0 < recv_count r
      → recv_count r ≤ recv_buffer_size - 1 - c.bytes_received
      → c.state ≡ receiving
      → Advances c (read_socket a ctx c r)
  unfolding read_socket
  read_socket-Advances none n k h = absurd (omega arith)
  read_socket-Advances (some []) n k h = absurd (omega arith)
  read_socket-Advances (some (x ∷ xs)) n k h = got_bytes-Advances (x ∷ xs) n k h

  ready_receiving-Advances :
      (epoll_fd : ℤ)
      → Feeds epoll_fd a ev c
      → c.state ≡ receiving
      → Advances c (ready_receiving a ctx c ev)
  unfolding ready_receiving
  ready_receiving-Advances epoll_fd f h =
      let m = w.received in
      let k = o.recv in
      let l = o.ssl_read in
      let n = f.data_ready in
      let r = f.readable in
      ground (
        arith,
        read_bytes-Advances (wants_retry a.ssl_error) a.ssl_read,
        read_socket-Advances a.recv,
      )

  handle_ready_connection-Advances :
      (epoll_fd : ℤ)
      → Feeds epoll_fd a ev c
      → c.state ≡ receiving
      → Advances c (handle_ready_connection args a ctx c ev epoll_fd)
  unfolding dispatch
  handle_ready_connection-Advances epoll_fd f h =
      rw
        (handle_ready_connection-acts args a ctx c ev epoll_fd receiving f.valid f.removed f.intact
          h)
        (ready_receiving-Advances epoll_fd f h)

-- A completed connection stays as it is.
completed-stays :
    (args : Arguments) (a : Answers) (ctx : Bool) (c : Connection) (ev : Events) (epoll_fd : ℤ)
    → Feeds epoll_fd a ev c
    → c.state ≡ completed
    → handle_ready_connection args a ctx c ev epoll_fd ≡ handled c ctx (pos 0)
unfolding dispatch
completed-stays args a ctx c ev epoll_fd f h =
    handle_ready_connection-acts args a ctx c ev epoll_fd completed f.valid f.removed f.intact h

completed-run :
    (args : Arguments) (epoll_fd : ℤ) (ctx : Bool) (c : Connection) (es : List (Answers × Events))
    → AllFeed args epoll_fd ctx c es
    → c.state ≡ completed
    → (run_events args epoll_fd ctx c es).conn ≡ c
unfolding run_events
completed-run args epoll_fd ctx c [] f h = refl
completed-run args epoll_fd ctx c ((a, ev) ∷ rest) f h =
    let x = handle_ready_connection args a ctx c ev epoll_fd in
    let e = completed-stays args a ctx c ev epoll_fd f.0 h in
    completed-run args epoll_fd x.ctx x.conn rest f.1 (ap (λ (y : Handled). y.conn.state) e ∙ h)
    ∙ ap (λ (y : Handled). y.conn) e

-- Once a connection receives, on events that each bring at least one byte while there is room, it is completed and counted as one response after at most 8096 events less the bytes that it has already: every event adds a byte or ends the response, and a full buffer ends it too.
pub receiving-completes :
    (args : Arguments) (body : List ℕ) (epoll_fd : ℤ) (ctx : Bool) (c : Connection)
    (es : List (Answers × Events))
    → WellFormed args body c
    → AllObey args epoll_fd ctx c es
    → AllFeed args epoll_fd ctx c es
    → c.state ≡ receiving
    → recv_buffer_size ≤ c.bytes_received + length es
    → ((run_events args epoll_fd ctx c es).conn.state ≡ completed)
      × ((run_events args epoll_fd ctx c es).conn.speed ≡ add_int c.speed 1)
unfolding run_events
receiving-completes args body epoll_fd ctx c [] w o f h n = absurd (omega (arith, w.received))
receiving-completes args body epoll_fd ctx c ((a, ev) ∷ rest) w o f h n =
    let c' = handle_ready_connection args a ctx c ev epoll_fd in
    let w' = handle_ready_connection-WellFormed args body a ctx c ev epoll_fd w o.0 in
    elim (handle_ready_connection-Advances args body a ctx c ev w o.0 epoll_fd f.0 h) [
      | inl more ↦
          let (s, v) =
            receiving-completes args body epoll_fd c'.ctx c'.conn rest w' o.1 f.1 more.state
              (omega (arith, more.longer)) in
          (s, v ∙ ap (λ k. add_int k 1) more.speed)
      | inr over ↦
          let e = completed-run args epoll_fd c'.ctx c'.conn rest f.1 over.state in
          (
            ap (λ (d : Connection). d.state) e ∙ over.state,
            ap (λ (d : Connection). d.speed) e ∙ over.speed,
          )
    ]

-- ===== src/Epoll/Bench/Invariant.antt =====
-- src/bench_epoll.c: what holds of every connection after any number of rounds.
use web_bench.Prelude.{
  ℕ, suc, ◌≡◌, refl, ap, ◌∙◌, subst, Bool, false, not, ◌||◌, Option, none, some, List, [], ◌∷◌,
  get_elem?, set, All, All-set, All-get_elem?, Outcome, done, exit, fault, ◌>>=◌, >>=-eq-done,
  if_both, option_both, if◌then◌else◌,
}
use web_bench.Prelude.Int.{ℤ, is_nonneg, is_zero}
use web_bench.Arguments.{Arguments}
use web_bench.Connection.{
  Connection, ConnState, idle, connecting, proxy_connect, proxy_response, tls_handshake, sending,
  receiving, completed, error, Answers, Events,
}
use web_bench.Epoll.Ready.{handle_ready_connection}
use web_bench.Epoll.Socket.{Resolver, cleanup_connection, allocate_socket}
use web_bench.Epoll.Setup.{
  SetupEnv, SetupResult, Registered, interest, restart, register_from, setup_result, is_denied,
  setup_connection_to_epoll_instance,
}
use web_bench.Epoll.Bench.{
  Report, Round, World, handle_report, handle_reports, Next, continue, break, wait_and_handle,
  run_round, run_rounds,
}

-- What is asked of each report, in the world in which it is handled.
abbrev pub ReportsObey : (World → Report → Type 0) → Arguments → ℤ → World → List Report → Type 0
ReportsObey Q args epfd w [] = Unit
ReportsObey Q args epfd w (r ∷ rs) =
    Q w r × ReportsObey Q args epfd (handle_report args epfd w r) rs

-- The connections with which a round waits.
abbrev pub set_up : Arguments → ℤ → World → Round → World
set_up args epfd w r = record w {
  conns = (setup_connection_to_epoll_instance r.setup args w.conns epfd).conns;
}

abbrev pub RoundObeys : (World → Report → Type 0) → Arguments → ℤ → World → Round → Type 0
RoundObeys Q args epfd w r =
    (reports : List Report)
    → r.wait ≡ some reports
    → ReportsObey Q args epfd (set_up args epfd w r) reports

abbrev pub RoundsObey : (World → Report → Type 0) → Arguments → ℤ → World → List Round → Type 0
RoundsObey Q args epfd w [] = Unit
RoundsObey Q args epfd w (r ∷ rs) =
    RoundObeys Q args epfd w r
    × ((w' : World) → run_round args epfd w r ≡ done (continue w') → RoundsObey Q args epfd w' rs)

-- A property of all the connections together, kept by setting up and by handling a report.
module _ (args : Arguments) (epfd : ℤ) (R : List Connection → Type 0) (Q : World → Report → Type 0)
    (setup_keeps : (env : SetupEnv) (cs : List Connection)
      → R cs
      → R (setup_connection_to_epoll_instance env args cs epfd).conns)
    (report_keeps : (w : World) (r : Report)
      → R w.conns
      → Q w r
      → R (handle_report args epfd w r).conns) where
  pub handle_reports-Inv :
      (w : World) (rs : List Report)
      → R w.conns
      → ReportsObey Q args epfd w rs
      → R (handle_reports args epfd w rs).conns
  unfolding handle_reports
  handle_reports-Inv w [] h q = h
  handle_reports-Inv w (r ∷ rs) h q =
      handle_reports-Inv (handle_report args epfd w r) rs (report_keeps w r h q.0) q.1

  abbrev pub NextInv : Outcome Next → Type 0
  NextInv (done (continue w)) = R w.conns
  NextInv (done (break w)) = R w.conns
  NextInv (exit n) = Unit
  NextInv fault = Unit

  wait_and_handle-Inv :
      (w : World) (wait : Option (List Report))
      → R w.conns
      → ((reports : List Report) → wait ≡ some reports → ReportsObey Q args epfd w reports)
      → NextInv (done (wait_and_handle args epfd w wait))
  unfolding wait_and_handle
  wait_and_handle-Inv w none h q = h
  wait_and_handle-Inv w (some reports) h q = handle_reports-Inv w reports h (q reports refl)

  pub run_round-Inv :
      (w : World) (r : Round)
      → R w.conns
      → RoundObeys Q args epfd w r
      → NextInv (run_round args epfd w r)
  unfolding run_round
  run_round-Inv w r h q =
      let s = setup_connection_to_epoll_instance r.setup args w.conns epfd in
      let h' = setup_keeps r.setup w.conns h in
      if_both NextInv (not (is_nonneg s.count)) tt
        (if_both NextInv (is_zero s.count) h' (wait_and_handle-Inv _ r.wait h' q))

  next-Inv :
      (w' : World) (later : World → Outcome World) (n : Next)
      → NextInv (done n)
      → (elim n [ continue v ↦ later v | break v ↦ done v ]) ≡ done w'
      → ((v : World) → n ≡ continue v → R v.conns → later v ≡ done w' → R w'.conns)
      → R w'.conns
  next-Inv w' later (continue v) g e k = k v refl g e
  next-Inv w' later (break v) g e k = subst (λ o. NextInv (o >>= λ u. done (break u))) e g

  pub run_rounds-Inv :
      (w w' : World) (rs : List Round)
      → R w.conns
      → RoundsObey Q args epfd w rs
      → run_rounds args epfd w rs ≡ done w'
      → R w'.conns
  unfolding run_rounds
  run_rounds-Inv w w' [] h q e = subst (λ o. NextInv (o >>= λ v. done (break v))) e h
  run_rounds-Inv w w' (r ∷ rs) h q e =
      let (n, run, rest) = >>=-eq-done (run_round args epfd w r) _ e in
      next-Inv w' (λ v. run_rounds args epfd v rs) n (subst NextInv run (run_round-Inv w r h q.0))
        rest (λ v c g l. run_rounds-Inv v w' rs g (q.1 v (run ∙ ap done c)) l)

-- What is asked of the answers to a report, at the connection that it is about.
abbrev pub About : (Answers → Connection → Type 0) → World → Report → Type 0
About Q w r = (c : Connection) → get_elem? w.conns r.index ≡ some c → Q r.answers c

-- A property of every connection, that the handler and a restart keep.
module _ (args : Arguments) (epfd : ℤ) (P : Connection → Type 0) (Q : Answers → Connection → Type 0)
    (keeps : (a : Answers) (ctx : Bool) (c : Connection) (ev : Events)
      → P c
      → Q a c
      → P (handle_ready_connection args a ctx c ev epfd).conn)
    (restarts : (resolve : Resolver) (c : Connection)
      → P c
      → P (allocate_socket resolve args (cleanup_connection c).conn).conn) where
  restart-keeps :
      (env : SetupEnv) (i : ℕ) (s : ConnState) (c : Connection) → P c → P (restart env args i s c)
  unfolding restart
  restart-keeps env i completed c p = restarts (env.resolve i) c p
  restart-keeps env i error c p = restarts (env.resolve i) c p
  restart-keeps env i idle c p = p
  restart-keeps env i connecting c p = p
  restart-keeps env i proxy_connect c p = p
  restart-keeps env i proxy_response c p = p
  restart-keeps env i tls_handshake c p = p
  restart-keeps env i sending c p = p
  restart-keeps env i receiving c p = p

  register_from-All :
      (env : SetupEnv) (i : ℕ) (cs : List Connection)
      → All P cs
      → All P (register_from env args i cs).conns
  unfolding register_from
  register_from-All env i [] h = tt
  register_from-All env i (c ∷ cs) h =
      let rest = register_from env args (suc i) cs in
      let later = register_from-All env (suc i) cs h.1 in
      option_both (λ (r : Registered). All P r.conns) (interest c.state)
        (record rest { conns = restart env args i c.state c ∷ rest.conns })
        (λ events.
          if is_denied (env.ctl_add i)
          then record { conns = c ∷ cs; waiting = []; ok = false }
          else record rest { conns = c ∷ rest.conns; waiting = (i, events) ∷ rest.waiting })
        (λ e. (restart-keeps env i c.state c h.0, later))
        (λ events e.
          if_both (λ (r : Registered). All P r.conns) (is_denied (env.ctl_add i)) h (h.0, later))

  setup-All :
      (env : SetupEnv) (cs : List Connection)
      → All P cs
      → All P (setup_connection_to_epoll_instance env args cs epfd).conns
  unfolding setup_connection_to_epoll_instance setup_result
  setup-All env [] h = tt
  setup-All env (c ∷ cs) h =
      if_both (λ (s : SetupResult). All P s.conns)
        (not (is_nonneg c.sockfd) || not (is_nonneg epfd)) h (register_from-All env 0 (c ∷ cs) h)

  handle_report-All :
      (w : World) (r : Report)
      → All P w.conns
      → About Q w r
      → All P (handle_report args epfd w r).conns
  unfolding handle_report
  handle_report-All w r h q =
      option_both (λ (v : World). All P v.conns) (get_elem? w.conns r.index) w
        (λ c.
          let x = handle_ready_connection args r.answers w.ctx c r.events epfd in
          record { conns = set w.conns r.index x.conn; ctx = x.ctx })
        (λ e. h)
        (λ c e.
          All-set P w.conns r.index _ h
            (keeps r.answers w.ctx c r.events (All-get_elem? P w.conns r.index c h e) (q c e)))

  pub run_rounds-All :
      (w w' : World) (rs : List Round)
      → All P w.conns
      → RoundsObey (About Q) args epfd w rs
      → run_rounds args epfd w rs ≡ done w'
      → All P w'.conns
  run_rounds-All w w' rs h q e =
      run_rounds-Inv args epfd (All P) (About Q) setup-All handle_report-All w w' rs h q e

-- ===== src/Epoll/Bench/Closed.antt =====
-- src/bench_epoll.c: what becomes of a connection that has no socket.
use mathlib.Core.Bool.{false≢true}
use web_bench.Prelude.{
  ℕ, zero, suc, ◌≡◌, ◌≢◌, refl, ap, ◌∙◌, sym, Bool, true, false, not, ◌||◌, Option, none, some,
  List, [], ◌∷◌, get_elem?, set, arith, Outcome, done, exit, ◌>>=◌, option_both, if_both,
  some-injective, get_elem?-set_ne, if◌then◌else◌,
}
use web_bench.Prelude.Int.{ℤ, minus_one, is_nonneg, is_zero}
use web_bench.Arguments.{Arguments}
use web_bench.Connection.{
  Connection, ConnState, idle, connecting, proxy_connect, proxy_response, tls_handshake, sending,
  receiving, completed, error, Answers, Events,
}
use web_bench.Epoll.Ready.{handle_ready_connection}
use web_bench.Epoll.Ready.Keeps.{handle_ready_connection-Keeps}
use web_bench.Epoll.Socket.{create_nonblocking_socket, open_socket, allocate_socket}
use web_bench.Epoll.Setup.{
  SetupEnv, SetupResult, Registered, interest, is_denied, restart, register_from, setup_result,
  setup_connection_to_epoll_instance,
}
use web_bench.Epoll.Bench.{
  Report, Round, World, handle_report, handle_reports, Next, continue, break, wait_and_handle,
  run_round, run_rounds,
}
use web_bench.Epoll.Bench.Invariant.{RoundsObey, run_rounds-Inv, set_up}

-- The connection at index `i` is `c`.
abbrev Stands : ℕ → Connection → List Connection → Type 0
Stands i c cs = get_elem? cs i ≡ some c

register_from-head :
    (env : SetupEnv) (args : Arguments) (d : Connection) (k : ℕ) (cs : List Connection)
    → interest d.state ≡ none
    → get_elem? (register_from env args k (d ∷ cs)).conns 0 ≡ some (restart env args k d.state d)
unfolding register_from
register_from-head env args d k cs e =
    let rest = register_from env args (suc k) cs in
    option_both (λ (r : Registered). get_elem? r.conns 0 ≡ some (restart env args k d.state d))
      (interest d.state) (record rest { conns = restart env args k d.state d ∷ rest.conns })
      (λ events.
        if is_denied (env.ctl_add k)
        then record { conns = d ∷ cs; waiting = []; ok = false }
        else record rest { conns = d ∷ rest.conns; waiting = (k, events) ∷ rest.waiting })
      (λ n. refl) (λ events n. cc)

restart-idle :
    (env : SetupEnv) (args : Arguments) (k : ℕ) (d : Connection) (s : ConnState)
    → s ≡ idle
    → restart env args k s d ≡ d
unfolding restart
restart-idle env args k d s h = ap (λ t. restart env args k t d) h

-- Behind the first connection, the loop goes on or has stopped.
register_from-tail :
    (env : SetupEnv) (args : Arguments) (d : Connection) (k j : ℕ) (cs : List Connection)
    (P : Option Connection → Type 0)
    → P (get_elem? cs j)
    → P (get_elem? (register_from env args (suc k) cs).conns j)
    → P (get_elem? (register_from env args k (d ∷ cs)).conns (suc j))
unfolding register_from
register_from-tail env args d k j cs P stopped on =
    let rest = register_from env args (suc k) cs in
    option_both (λ (r : Registered). P (get_elem? r.conns (suc j))) (interest d.state)
      (record rest { conns = restart env args k d.state d ∷ rest.conns })
      (λ events.
        if is_denied (env.ctl_add k)
        then record { conns = d ∷ cs; waiting = []; ok = false }
        else record rest { conns = d ∷ rest.conns; waiting = (k, events) ∷ rest.waiting })
      (λ e. on)
      (λ events e.
        if_both (λ (r : Registered). P (get_elem? r.conns (suc j))) (is_denied (env.ctl_add k))
          stopped on)

register_from-idle :
    (env : SetupEnv) (args : Arguments) (c : Connection) (i k : ℕ) (cs : List Connection)
    → c.state ≡ idle
    → Stands i c cs
    → Stands i c (register_from env args k cs).conns
unfolding register_from
register_from-idle env args c i k [] h s = cc
register_from-idle env args c zero k (d ∷ cs) h s =
    let e = some-injective d c s in
    let still : d.state ≡ idle = ap (λ (x : Connection). x.state) e ∙ h in
    register_from-head env args d k cs (ap interest still)
    ∙ ap some (restart-idle env args k d d.state still)
    ∙ s
register_from-idle env args c (suc i) k (d ∷ cs) h s =
    register_from-tail env args d k i cs (λ o. o ≡ some c) s
      (register_from-idle env args c i (suc k) cs h s)

setup-idle :
    (env : SetupEnv) (args : Arguments) (epfd : ℤ) (c : Connection) (i : ℕ) (cs : List Connection)
    → c.state ≡ idle
    → Stands i c cs
    → Stands i c (setup_connection_to_epoll_instance env args cs epfd).conns
unfolding setup_connection_to_epoll_instance setup_result
setup-idle env args epfd c i [] h s = s
setup-idle env args epfd c i (d ∷ cs) h s =
    if_both (λ (r : SetupResult). Stands i c r.conns)
      (not (is_nonneg d.sockfd) || not (is_nonneg epfd)) s
      (register_from-idle env args c i 0 (d ∷ cs) h s)

handle_report-other :
    (args : Arguments) (epfd : ℤ) (c : Connection) (i : ℕ) (w : World) (r : Report)
    → Stands i c w.conns
    → r.index ≢ i
    → Stands i c (handle_report args epfd w r).conns
unfolding handle_report
handle_report-other args epfd c i w r s n =
    option_both (λ (v : World). Stands i c v.conns) (get_elem? w.conns r.index) w
      (λ d.
        let x = handle_ready_connection args r.answers w.ctx d r.events epfd in
        record { conns = set w.conns r.index x.conn; ctx = x.ctx })
      (λ e. s) (λ d e. get_elem?-set_ne w.conns _ n ∙ s)

-- A connection that is idle, since no socket could be opened for it, is never started again: if no event is reported for it, it stands there unchanged after any number of rounds, whatever hosts can be reached by then.
pub run_rounds-idle :
    (args : Arguments) (epfd : ℤ) (c : Connection) (i : ℕ) (w w' : World) (rs : List Round)
    → c.state ≡ idle
    → get_elem? w.conns i ≡ some c
    → RoundsObey (λ v r. r.index ≢ i) args epfd w rs
    → run_rounds args epfd w rs ≡ done w'
    → get_elem? w'.conns i ≡ some c
run_rounds-idle args epfd c i w w' rs h s q e =
    run_rounds-Inv args epfd (Stands i c) (λ v r. r.index ≢ i)
      (λ env cs. setup-idle env args epfd c i cs h) (λ v r. handle_report-other args epfd c i v r) w
      w' rs s q e

-- The first connection has no socket.
abbrev FirstClosed : List Connection → Type 0
FirstClosed cs = (c : Connection) × Stands 0 c cs × (is_nonneg c.sockfd ≡ false)

handle_report-FirstClosed :
    (args : Arguments) (epfd : ℤ) (w : World) (r : Report)
    → FirstClosed w.conns
    → FirstClosed (handle_report args epfd w r).conns
unfolding handle_report
handle_report-FirstClosed args epfd w r f =
    option_both (λ (v : World). FirstClosed v.conns) (get_elem? w.conns r.index) w
      (λ d.
        let x = handle_ready_connection args r.answers w.ctx d r.events epfd in
        record { conns = set w.conns r.index x.conn; ctx = x.ctx })
      (λ e. f) (λ d e. written w.conns r.index d r.answers r.events w.ctx f e)
  where
    written :
        (cs : List Connection) (k : ℕ) (d : Connection) (a : Answers) (ev : Events) (ctx : Bool)
        → FirstClosed cs
        → get_elem? cs k ≡ some d
        → FirstClosed (set cs k (handle_ready_connection args a ctx d ev epfd).conn)
    written [] k d a ev ctx (c, s, n) e = cc
    written (x ∷ cs) zero d a ev ctx (c, s, n) e =
        let k = handle_ready_connection-Keeps args a ctx d ev epfd in
        let same : d ≡ c = some-injective d c (sym e ∙ s) in
        (_, refl, ap is_nonneg (k.sockfd ∙ ap (λ (y : Connection). y.sockfd) same) ∙ n)
    written (x ∷ cs) (suc k) d a ev ctx f e = f

setup-FirstClosed :
    (env : SetupEnv) (args : Arguments) (epfd : ℤ) (cs : List Connection)
    → FirstClosed cs
    → (setup_connection_to_epoll_instance env args cs epfd).count ≡ minus_one
unfolding setup_connection_to_epoll_instance
setup-FirstClosed env args epfd [] (c, s, n) = cc
setup-FirstClosed env args epfd (d ∷ cs) (c, s, n) =
    let closed : is_nonneg d.sockfd ≡ false =
      ap (λ (x : Connection). is_nonneg x.sockfd) (some-injective d c s) ∙ n in
    rw closed refl

run_round-FirstClosed :
    (args : Arguments) (epfd : ℤ) (w : World) (r : Round)
    → FirstClosed w.conns
    → run_round args epfd w r ≡ exit 1
unfolding run_round
run_round-FirstClosed args epfd w r f =
    let test : is_nonneg (setup_connection_to_epoll_instance r.setup args w.conns epfd).count
        ≡ false =
      ap is_nonneg (setup-FirstClosed r.setup args epfd w.conns f) in
    rw test refl

abbrev pub is_over : ConnState → Bool
is_over completed = true
is_over error = true
is_over _ = false

is_over-interest : (s : ConnState) → is_over s ≡ true → interest s ≡ none
is_over-interest completed h = refl
is_over-interest error h = refl
is_over-interest idle h = refl
is_over-interest connecting h = absurd (false≢true h)
is_over-interest proxy_connect h = absurd (false≢true h)
is_over-interest proxy_response h = absurd (false≢true h)
is_over-interest tls_handshake h = absurd (false≢true h)
is_over-interest sending h = absurd (false≢true h)
is_over-interest receiving h = absurd (false≢true h)

restart-unreachable :
    (env : SetupEnv) (args : Arguments) (i : ℕ) (c : Connection)
    → ((host : List ℕ) (port : ℤ) → env.resolve i host port ≡ none)
    → (s : ConnState) → is_over s ≡ true
    → is_nonneg (restart env args i s c).sockfd ≡ false
unfolding restart allocate_socket open_socket create_nonblocking_socket
restart-unreachable env args i c h completed t =
    ground (arith, h args.proxy_host args.proxy_port, h args.target_host args.target_port)
restart-unreachable env args i c h error t =
    ground (arith, h args.proxy_host args.proxy_port, h args.target_host args.target_port)
restart-unreachable env args i c h idle t = absurd (false≢true t)
restart-unreachable env args i c h connecting t = absurd (false≢true t)
restart-unreachable env args i c h proxy_connect t = absurd (false≢true t)
restart-unreachable env args i c h proxy_response t = absurd (false≢true t)
restart-unreachable env args i c h tls_handshake t = absurd (false≢true t)
restart-unreachable env args i c h sending t = absurd (false≢true t)
restart-unreachable env args i c h receiving t = absurd (false≢true t)

setup-over :
    (env : SetupEnv) (args : Arguments) (epfd : ℤ) (c : Connection) (cs : List Connection)
    → ((host : List ℕ) (port : ℤ) → env.resolve 0 host port ≡ none)
    → is_over c.state ≡ true
    → is_nonneg c.sockfd ≡ true
    → is_nonneg epfd ≡ true
    → FirstClosed (setup_connection_to_epoll_instance env args (c ∷ cs) epfd).conns
unfolding setup_connection_to_epoll_instance setup_result
setup-over env args epfd c cs h o s v =
    rw (s, v)
      (
        restart env args 0 c.state c,
        register_from-head env args c 0 cs (is_over-interest c.state o),
        restart-unreachable env args 0 c h c.state o,
      )

handle_reports-FirstClosed :
    (args : Arguments) (epfd : ℤ) (w : World) (rs : List Report)
    → FirstClosed w.conns
    → FirstClosed (handle_reports args epfd w rs).conns
unfolding handle_reports
handle_reports-FirstClosed args epfd w [] f = f
handle_reports-FirstClosed args epfd w (r ∷ rs) f =
    handle_reports-FirstClosed args epfd (handle_report args epfd w r) rs
      (handle_report-FirstClosed args epfd w r f)

-- How the process ends from a world in which the first connection is closed.
abbrev Ends : Arguments → ℤ → List Round → Outcome Next → Type 0
Ends args epfd rs o =
    (o >>= λ n. elim n [ continue w ↦ run_rounds args epfd w rs | break w ↦ done w ]) ≡ exit 1

-- If the first connection is over and its host cannot be reached when it is restarted, the process exits with 1 in the next round at the latest, whatever the other connections do: the guard of the registration looks at the first descriptor only.
pub run_rounds-first_unreachable :
    (args : Arguments) (epfd : ℤ) (c : Connection) (cs : List Connection) (ctx : Bool)
    (r next : Round) (rs : List Round) (reports : List Report)
    → ((host : List ℕ) (port : ℤ) → r.setup.resolve 0 host port ≡ none)
    → is_over c.state ≡ true
    → is_nonneg c.sockfd ≡ true
    → is_nonneg epfd ≡ true
    → r.wait ≡ some reports
    → run_rounds args epfd (record { conns = c ∷ cs; ctx = ctx }) (r ∷ (next ∷ rs)) ≡ exit 1
unfolding run_rounds run_round wait_and_handle
run_rounds-first_unreachable args epfd c cs ctx r next rs reports h o s v wait =
    let first : World = record { conns = c ∷ cs; ctx = ctx } in
    let closed = setup-over r.setup args epfd c cs h o s v in
    if_both (Ends args epfd (next ∷ rs))
      (not (is_nonneg (setup_connection_to_epoll_instance r.setup args (c ∷ cs) epfd).count)) refl
      (if_both (Ends args epfd (next ∷ rs))
        (is_zero (setup_connection_to_epoll_instance r.setup args (c ∷ cs) epfd).count)
        (run_rounds-closed (set_up args epfd first r) closed)
        (simp wait (
          run_rounds-closed (handle_reports args epfd (set_up args epfd first r) reports)
            (handle_reports-FirstClosed args epfd (set_up args epfd first r) reports closed))))
  where
    run_rounds-closed :
        (w : World) → FirstClosed w.conns → run_rounds args epfd w (next ∷ rs) ≡ exit 1
    run_rounds-closed w f =
        ap (λ x. x >>= λ n. elim n [ continue v ↦ run_rounds args epfd v rs | break v ↦ done v ])
          (run_round-FirstClosed args epfd w next f)

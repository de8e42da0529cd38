-- ===== src/Poll/Bench/Invariant.antt =====
-- src/bench_poll.c: what holds of every connection after any number of rounds of the poll loop.
use web_bench.Prelude.{
  ℕ, suc, ◌≡◌, refl, ap, ◌∙◌, subst, Bool, true, false, not, some, List, [], ◌∷◌, All, Outcome,
  done, fault, ◌>>=◌, >>=-eq-done, if_both, option_both, replicate,
}
use web_bench.Prelude.Int.{pos, is_nonneg, is_zero, is_positive}
use web_bench.Arguments.{Arguments}
use web_bench.Bitmap.{set_bitmap, get_bitmap}
use web_bench.Connection.{Connection, ConnState, Answers, Events}
use web_bench.Epoll.Socket.{Resolver}
use web_bench.Epoll.Setup.{Interest}
use web_bench.Epoll.Bench.{World}
use web_bench.Poll.Setup.{
  PollFd, FdSets, SetupResult, wanted, marked_size, restart, with_conn, with_entry, bytes_of,
  setup_from, setup_result, setup_connection_fdsets,
}
use web_bench.Poll.Ready.{handle_ready_connection}
use web_bench.Poll.Bench.{
  Polled, failure, timeout, ready, Round, handle_from, Next, continue, break, poll_and_handle,
  run_round, run_rounds,
}

-- What holds of the result of a call, if it returns.
pub record Yields {ℓ} {A : Type ℓ} (P : A → Type 0) (m : Outcome A) : Type ℓ where
  pub yields : (a : A) → m ≡ done a → P a

done-Yields {ℓ} : {A : Type ℓ} (P : A → Type 0) (a : A) → P a → Yields P (done a)
done-Yields P a p = record { yields = λ b e. let same : a ≡ b = cc in subst P same p }

bind-Yields {ℓ κ} :
    {A : Type ℓ} {B : Type κ} (Q : B → Type 0) (m : Outcome A) (f : A → Outcome B)
    → ((a : A) → m ≡ done a → Yields Q (f a))
    → Yields Q (m >>= f)
bind-Yields Q m f h = record {
  yields = λ b e. let (a, before, after) = >>=-eq-done m f e in (h a before).yields b after;
}

fault-Yields {ℓ} : {A : Type ℓ} (P : A → Type 0) → Yields P fault
fault-Yields P = record { yields = λ a e. cc }

-- What is asked of the connections of a list, the first at index `i`.
abbrev pub AllFrom : (ℕ → Connection → Type 0) → ℕ → List Connection → Type 0
AllFrom Q i [] = Unit
AllFrom Q i (c ∷ cs) = Q i c × AllFrom Q (suc i) cs

-- What is asked of the answers of a round, at the connections that the set-up leaves.
abbrev pub RoundObeys : (Answers → Connection → Type 0) → Arguments → ℕ → World → Round → Type 0
RoundObeys Q args size w r =
    (s : SetupResult)
    → setup_connection_fdsets r.resolve args w.conns size (replicate size 0) ≡ done s
    → AllFrom (λ i c. Q (r.answers i) c) 0 s.conns

abbrev pub RoundsObey :
    (Answers → Connection → Type 0) → Arguments → ℕ → World → List Round → Type 0
RoundsObey Q args size w [] = Unit
RoundsObey Q args size w (r ∷ rs) =
    RoundObeys Q args size w r
    × ((w' : World) → run_round args size w r ≡ done (continue w') → RoundsObey Q args size w' rs)

abbrev world_of : Next → World
world_of (continue w) = w
world_of (break w) = w

bool_both {ℓ κ} :
    {A : Type ℓ} (P : A → Type κ) (b : Bool) {x y : A}
    → P x
    → P y
    → P (elim b [ true ↦ x | false ↦ y ])
bool_both P true p q = p
bool_both P false p q = q

-- A property that the handler and a restart keep.
module _ (args : Arguments) (P : Connection → Type 0) (Q : Answers → Connection → Type 0)
    (keeps : (a : Answers) (ctx : Bool) (c : Connection) (ev : Events)
      → P c
      → Q a c
      → P (handle_ready_connection args a ctx c ev).conn)
    (restarts : (resolve : Resolver) (s : ConnState) (c : Connection)
      → P c
      → P (restart resolve args s c)) where
  abbrev Good : Outcome FdSets → Type 0
  Good m = Yields (λ (s : FdSets). All P s.conns) m

  with_entry-Good :
      (c : Connection) (events : Interest) (m : Outcome FdSets)
      → P c
      → Good m
      → Good (m >>= λ rest. done (with_entry c events rest))
  with_entry-Good c events m p h = bind-Yields _ m _ λ rest d. done-Yields _ _ (p, h.yields rest d)

  with_conn-Good :
      (c : Connection) (m : Outcome FdSets)
      → P c
      → Good m
      → Good (m >>= λ rest. done (with_conn c rest))
  with_conn-Good c m p h = bind-Yields _ m _ λ rest d. done-Yields _ _ (p, h.yields rest d)

  marked-Good :
      (c : Connection) (cs : List Connection) (bitmap : List ℕ) (b : Bool) (m : Outcome FdSets)
      → All P (c ∷ cs)
      → Good m
      → Good (elim b [
        | false ↦ done (record { conns = c ∷ cs; polled = []; bitmap = bitmap; ok = false })
        | true ↦ m
      ])
  marked-Good c cs bitmap false m h k = done-Yields _ _ h
  marked-Good c cs bitmap true m h k = k

  setup_from-All :
      (resolve : ℕ → Resolver) (size i : ℕ) (cs : List Connection) (bitmap : List ℕ)
      → All P cs
      → Good (setup_from resolve args size i cs bitmap)
  unfolding setup_from
  setup_from-All resolve size i [] bitmap h = done-Yields _ _ tt
  setup_from-All resolve size i (c ∷ cs) bitmap h =
      option_both Good (wanted c.state) _ _
        (λ e.
          with_conn-Good (restart (resolve i) args c.state c)
            (setup_from resolve args size (suc i) cs bitmap) (restarts (resolve i) c.state c h.0)
            (setup_from-All resolve size (suc i) cs bitmap h.1))
        (λ events e.
          bind-Yields _ (set_bitmap i (some bitmap) (pos (marked_size c.state size))) _ λ r d.
            marked-Good c cs bitmap (is_nonneg r.0) _ h (
              with_entry-Good c events
                (setup_from resolve args size (suc i) cs (bytes_of r.1 bitmap)) h.0
                (setup_from-All resolve size (suc i) cs (bytes_of r.1 bitmap) h.1)))

  setup-All :
      (resolve : ℕ → Resolver) (size : ℕ) (cs : List Connection) (bitmap : List ℕ)
      → All P cs
      → Yields
          (λ (s : SetupResult). All P s.conns)
          (setup_connection_fdsets resolve args cs size bitmap)
  unfolding setup_connection_fdsets setup_result
  setup-All resolve size [] bitmap h = fault-Yields _
  setup-All resolve size (c ∷ cs) bitmap h =
      if_both (Yields (λ (s : SetupResult). All P s.conns)) (not (is_nonneg c.sockfd))
        (done-Yields _ _ h)
        (bind-Yields _ (setup_from resolve args size 0 (c ∷ cs) bitmap) _
          λ s d. done-Yields _ _ ((setup_from-All resolve size 0 (c ∷ cs) bitmap h).yields s d))

  abbrev Fine : Outcome World → Type 0
  Fine m = Yields (λ (w : World). All P w.conns) m

  cons-Fine :
      (c : Connection) (m : Outcome World)
      → P c
      → Fine m
      → Fine (m >>= λ w. done (record w { conns = c ∷ w.conns }))
  cons-Fine c m p h = bind-Yields _ m _ λ w d. done-Yields _ _ (p, h.yields w d)

  handle_from-All :
      (revents : PollFd → Events) (answers : ℕ → Answers) (size : ℕ) (bitmap : List ℕ) (i : ℕ)
      (ctx : Bool) (cs : List Connection) (entries : List PollFd)
      → All P cs
      → AllFrom (λ j c. Q (answers j) c) i cs
      → Fine (handle_from args revents answers size bitmap i ctx cs entries)
  unfolding handle_from
  handle_from-All revents answers size bitmap i ctx [] entries h q = done-Yields _ _ tt
  handle_from-All revents answers size bitmap i ctx (c ∷ cs) [] h q =
      bind-Yields _ (get_bitmap i (some bitmap) (pos size)) _ λ bit d.
        bool_both Fine (is_zero bit)
          (cons-Fine c (handle_from args revents answers size bitmap (suc i) ctx cs []) h.0
            (handle_from-All revents answers size bitmap (suc i) ctx cs [] h.1 q.1))
          (fault-Yields _)
  handle_from-All revents answers size bitmap i ctx (c ∷ cs) (entry ∷ rest) h q =
      let x = handle_ready_connection args (answers i) ctx c (revents entry) in
      bind-Yields _ (get_bitmap i (some bitmap) (pos size)) _ λ bit d.
        bool_both Fine (is_zero bit)
          (cons-Fine c (handle_from args revents answers size bitmap (suc i) ctx cs (entry ∷ rest))
            h.0 (handle_from-All revents answers size bitmap (suc i) ctx cs (entry ∷ rest) h.1 q.1))
          (cons-Fine x.conn (handle_from args revents answers size bitmap (suc i) x.ctx cs rest)
            (keeps (answers i) ctx c (revents entry) h.0 q.0)
            (handle_from-All revents answers size bitmap (suc i) x.ctx cs rest h.1 q.1))

  abbrev Onward : Outcome Next → Type 0
  Onward m = Yields (λ n. All P (world_of n).conns) m

  poll_and_handle-All :
      (r : Round) (size : ℕ) (ctx : Bool) (s : SetupResult) (p : Polled)
      → All P s.conns
      → AllFrom (λ i c. Q (r.answers i) c) 0 s.conns
      → Onward (poll_and_handle args r size ctx s p)
  unfolding poll_and_handle
  poll_and_handle-All r size ctx s failure h q = done-Yields _ _ h
  poll_and_handle-All r size ctx s timeout h q = done-Yields _ _ h
  poll_and_handle-All r size ctx s (ready revents) h q =
      let loop = handle_from args revents r.answers size s.bitmap 0 ctx s.conns s.polled in
      bind-Yields _ loop _ λ w d.
        done-Yields _ _
          ((handle_from-All revents r.answers size s.bitmap 0 ctx s.conns s.polled h q).yields w d)

  run_round-All :
      (size : ℕ) (w : World) (r : Round)
      → All P w.conns
      → RoundObeys Q args size w r
      → Onward (run_round args size w r)
  unfolding run_round
  run_round-All size w r h q =
      bind-Yields _ (setup_connection_fdsets r.resolve args w.conns size (replicate size 0)) _
        λ s d.
          let g = (setup-All r.resolve size w.conns (replicate size 0) h).yields s d in
          if_both Onward (is_positive s.count) (poll_and_handle-All r size w.ctx s r.poll g (q s d))
            (done-Yields _ _ g)

  next-All :
      (size : ℕ) (rs : List Round) (n : Next)
      → All P (world_of n).conns
      → ((w : World) → n ≡ continue w → All P w.conns → Fine (run_rounds args size w rs))
      → Fine (elim n [ continue w ↦ run_rounds args size w rs | break w ↦ done w ])
  next-All size rs (continue w) h k = k w refl h
  next-All size rs (break w) h k = done-Yields _ _ h

  pub run_rounds-Fine :
      (size : ℕ) (w : World) (rs : List Round)
      → All P w.conns
      → RoundsObey Q args size w rs
      → Fine (run_rounds args size w rs)
  unfolding run_rounds
  run_rounds-Fine size w [] h q = done-Yields _ _ h
  run_rounds-Fine size w (r ∷ rs) h q = bind-Yields _ (run_round args size w r) _ λ n d.
      next-All size rs n ((run_round-All size w r h q.0).yields n d)
        (λ w' e g. run_rounds-Fine size w' rs g (q.1 w' (d ∙ ap done e)))

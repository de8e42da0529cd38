-- ===== src/Poll/Bench/Each.antt =====
-- src/bench_poll.c: what the handling loop does to each connection by itself.
use web_bench.Prelude.{
  ℕ, suc, ◌+◌, ◌*◌, ◌≤◌, ◌<◌, ◌≡◌, refl, ap, sym, ◌∙◌, Bool, true, false, none, some, List, [], ◌∷◌,
  length, arith, Option-cases, inl, inr, Outcome, done,
}
use web_bench.Prelude.Int.{pos}
use web_bench.Arguments.{Arguments}
use web_bench.Connection.{Connection, Answers, Events}
use web_bench.Bitmap.{get_bitmap}
use web_bench.Bitmap.Laws.{IsBitmap, bit, get_bitmap-bit}
use web_bench.Epoll.Socket.{Resolver}
use web_bench.Epoll.Bench.{World}
use web_bench.Poll.Setup.{PollFd, wanted, restart}
use web_bench.Poll.Setup.Spec.{
  blocked, is_wanted, clear, after_setup, entries_of, marked, after_setup-wanted,
  after_setup-unwanted, entries_of-wanted, entries_of-unwanted,
}
use web_bench.Poll.Ready.{handle_ready_connection}
use web_bench.Poll.Bench.{handle_from}

-- What one round does, connection by connection, from index `i` on: one that is over starts anew, one
-- that is polled is handled with the events of its own descriptor.
unfoldable pub poll_each :
    (ℕ → Resolver)
    → Arguments
    → (PollFd → Events)
    → (ℕ → Answers)
    → ℕ
    → Bool
    → List Connection
    → World
poll_each resolve args revents answers i ctx [] = record { conns = []; ctx = ctx }
poll_each resolve args revents answers i ctx (c ∷ cs) = elim (wanted c.state) [
  | none ↦
      let rest = poll_each resolve args revents answers (suc i) ctx cs in
      record rest { conns = restart (resolve i) args c.state c ∷ rest.conns }
  | some events ↦
      let entry : PollFd = record { fd = c.sockfd; events = events } in
      let h = handle_ready_connection args (answers i) ctx c (revents entry) in
      let rest = poll_each resolve args revents answers (suc i) h.ctx cs in
      record rest { conns = h.conn ∷ rest.conns }
]

marked_before : (i : ℕ) (cs : List Connection) (q : ℕ) → q < i → marked i cs q ≡ false
unfolding marked
marked_before i [] q h = refl
marked_before i (c ∷ cs) q h = ground (arith, marked_before (suc i) cs q)

-- The steps of the handling loop.
module _ (args : Arguments) (revents : PollFd → Events) (answers : ℕ → Answers) (size : ℕ)
    (bitmap : List ℕ) (i : ℕ) (ctx : Bool) (c : Connection) (cs : List Connection) (w : World) where
  handle_from-unset :
      (entries : List PollFd)
      → get_bitmap i (some bitmap) (pos size) ≡ done (pos 0)
      → handle_from args revents answers size bitmap (suc i) ctx cs entries ≡ done w
      → handle_from args revents answers size bitmap i ctx (c ∷ cs) entries
        ≡ done (record w { conns = c ∷ w.conns })
  unfolding handle_from
  handle_from-unset entries unset rest = rw (unset, rest) refl

  handle_from-set :
      (entry : PollFd) (entries : List PollFd)
      → get_bitmap i (some bitmap) (pos size) ≡ done (pos 1)
      → handle_from args revents answers size bitmap
          (suc i)
          (handle_ready_connection args (answers i) ctx c (revents entry)).ctx
          cs
          entries
        ≡ done w
      → handle_from args revents answers size bitmap i ctx (c ∷ cs) (entry ∷ entries)
        ≡ done (record w {
          conns = (handle_ready_connection args (answers i) ctx c (revents entry)).conn ∷ w.conns;
        })
  unfolding handle_from
  handle_from-set entry entries set rest = rw (set, rest) refl

module _ (resolve : ℕ → Resolver) (args : Arguments) (revents : PollFd → Events)
    (answers : ℕ → Answers) (size : ℕ) (bitmap : List ℕ) (good : IsBitmap size bitmap) where
  abbrev loop : ℕ → Bool → List Connection → List PollFd → Outcome World
  loop i ctx cs entries = handle_from args revents answers size bitmap i ctx cs entries

  pub handle_from-each :
      (i : ℕ) (ctx : Bool) (cs : List Connection)
      → clear i cs ≡ true
      → i + length cs ≤ size * 8
      → ((q : ℕ) → i ≤ q → bit bitmap q ≡ marked i cs q)
      → loop i ctx (after_setup resolve args i cs) (entries_of cs)
        ≡ done (poll_each resolve args revents answers i ctx cs)
  unfolding poll_each clear marked
  handle_from-each i ctx [] free r bits = unfold handle_from after_setup entries_of in refl
  handle_from-each i ctx (c ∷ cs) free r bits =
      let free_here : blocked i c.state ≡ false = ground arith in
      let free_later : clear (suc i) cs ≡ true = ground arith in
      let here : bit bitmap i ≡ is_wanted c.state =
        ground (arith, bits i, marked_before (suc i) cs i) in
      let later : (q : ℕ) → suc i ≤ q → bit bitmap q ≡ marked (suc i) cs q =
        λ q k. ground (arith, bits q) in
      elim (Option-cases (wanted c.state)) [
        | inl w ↦
            let unset : get_bitmap i (some bitmap) (pos size) ≡ done (pos 0) =
              get_bitmap-bit size bitmap good i (omega arith) ∙ rw here (rw (w, is_wanted) refl) in
            let rest = handle_from-each (suc i) ctx cs free_later (omega arith) later in
            ap (λ l. loop i ctx l (entries_of (c ∷ cs)))
              (after_setup-unwanted resolve args i c cs w)
            ∙ ap
                (loop i ctx
                  (restart (resolve i) args c.state c ∷ after_setup resolve args (suc i) cs))
                (entries_of-unwanted c cs w)
            ∙ handle_from-unset args revents answers size bitmap i ctx _ _ _ (entries_of cs) unset
                rest
            ∙ rw (w, poll_each) refl
        | inr (events, w) ↦
            let set : get_bitmap i (some bitmap) (pos size) ≡ done (pos 1) =
              get_bitmap-bit size bitmap good i (omega arith) ∙ rw here (rw (w, is_wanted) refl) in
            let entry : PollFd = record { fd = c.sockfd; events = events } in
            let h = handle_ready_connection args (answers i) ctx c (revents entry) in
            let rest = handle_from-each (suc i) h.ctx cs free_later (omega arith) later in
            ap (λ l. loop i ctx l (entries_of (c ∷ cs)))
              (after_setup-wanted resolve args i c cs events w free_here)
            ∙ ap (loop i ctx (c ∷ after_setup resolve args (suc i) cs))
                (entries_of-wanted c cs events w)
            ∙ handle_from-set args revents answers size bitmap i ctx c _ _ entry (entries_of cs) set
                rest
            ∙ rw (w, poll_each) refl
      ]

-- Where nothing is polled, a round restarts the connections that are over.
pub poll_each-idle :
    (resolve : ℕ → Resolver) (args : Arguments) (revents : PollFd → Events) (answers : ℕ → Answers)
    (i : ℕ) (ctx : Bool) (cs : List Connection)
    → entries_of cs ≡ []
    → poll_each resolve args revents answers i ctx cs
      ≡ record { conns = after_setup resolve args i cs; ctx = ctx }
unfolding poll_each
poll_each-idle resolve args revents answers i ctx [] h = unfold after_setup in refl
poll_each-idle resolve args revents answers i ctx (c ∷ cs) h =
    elim (Option-cases (wanted c.state)) [
      | inl w ↦
          let rest =
            poll_each-idle resolve args revents answers (suc i) ctx cs
              (sym (entries_of-unwanted c cs w) ∙ h) in
          rw (w, poll_each, rest, after_setup-unwanted resolve args i c cs w) refl
      | inr (events, w) ↦ absurd (nonempty (sym (entries_of-wanted c cs events w) ∙ h))
    ]
  where
    nonempty : {e : PollFd} {es : List PollFd} → e ∷ es ≡ [] → ⊥
    nonempty h = cc

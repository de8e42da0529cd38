-- ===== src/Poll/Bench/Rounds.antt =====
-- src/bench_poll.c: a round of the loop, as what it does to each connection by itself.
use web_bench.Prelude.{
  ℕ, suc, ◌*◌, ◌≤◌, ◌<◌, ◌≡◌, refl, ap, sym, ◌∙◌, Bool, true, false, List, [], ◌∷◌, ◌⊎◌, inl, inr,
  length, ltb, if◌then◌else◌, arith, Outcome, done, replicate,
}
use web_bench.Prelude.Int.{ℤ, pos, is_nonneg, is_positive, two_64}
use web_bench.Arguments.{Arguments}
use web_bench.Connection.{Connection, Events}
use web_bench.Bitmap.Laws.{bit, zeros-bit, zeros-IsBitmap}
use web_bench.Epoll.Socket.{Resolver}
use web_bench.Epoll.Bench.{World}
use web_bench.Poll.Setup.{SetupResult, PollFd, FdSets, setup_result, setup_connection_fdsets}
use web_bench.Poll.Setup.Spec.{clear, after_setup, entries_of, marked}
use web_bench.Poll.Setup.Marks.{Filled, setup_from-Filled}
use web_bench.Poll.Bench.{
  ready, timeout, failure, break, Polled, Round, handle_from, Next, continue, poll_and_handle,
  run_round,
}
use web_bench.Poll.Bench.Each.{poll_each, handle_from-each, poll_each-idle}

abbrev pub world_of : Next → World
world_of (continue w) = w
world_of (break w) = w

-- No event is handled.
no_event :
    (args : Arguments) (r : Round) (size : ℕ) (ctx b : Bool) (s : SetupResult) (p : Polled)
    → (p ≡ timeout) ⊎ (p ≡ failure)
    → (n : Next) × ((if b
          then poll_and_handle args r size ctx s p
          else done (continue (record { conns = s.conns; ctx = ctx })))
        ≡ done n)
      × (world_of n ≡ record { conns = s.conns; ctx = ctx })
unfolding poll_and_handle
no_event args r size ctx false s p h =
    (continue (record { conns = s.conns; ctx = ctx }), refl, refl)
no_event args r size ctx true s p (inl e) =
    (continue (record { conns = s.conns; ctx = ctx }), rw e refl, refl)
no_event args r size ctx true s p (inr e) =
    (break (record { conns = s.conns; ctx = ctx }), rw e refl, refl)

-- `poll` is called only if there is something to poll.
module _ (resolve : ℕ → Resolver) (args : Arguments) (size : ℕ) (r : Round) (ctx : Bool)
    (cs : List Connection) (revents : PollFd → Events) (s : FdSets) (fine : s.ok ≡ true)
    (conns : s.conns ≡ after_setup resolve args 0 cs) (polled : s.polled ≡ entries_of cs) where
  abbrev each : World
  each = poll_each resolve args revents r.answers 0 ctx cs

  abbrev goes_on : ℤ → Outcome Next
  goes_on count =
      if is_positive count
      then poll_and_handle args r size ctx (setup_result s) (ready revents)
      else done (continue (record { conns = s.conns; ctx = ctx }))

  goes_on-each :
      (entries : List PollFd)
      → s.polled ≡ entries
      → handle_from args revents r.answers size s.bitmap 0 ctx s.conns s.polled ≡ done each
      → goes_on (pos (length entries)) ≡ done (continue each)
  unfolding poll_and_handle setup_result
  goes_on-each [] e h =
      rw (poll_each-idle resolve args revents r.answers 0 ctx cs (sym polled ∙ e), conns) refl
  goes_on-each (entry ∷ entries) e h =
      let some_polled : ltb 0 (suc (length entries)) ≡ true = ground arith in
      rw (some_polled, h) refl

  polled_or_not :
      handle_from args revents r.answers size s.bitmap 0 ctx s.conns s.polled ≡ done each
      → goes_on (setup_result s).count ≡ done (continue each)
  unfolding setup_result poll_and_handle
  polled_or_not h = rw fine (goes_on-each s.polled refl h)

module _ (args : Arguments) (size : ℕ) (c : Connection) (cs : List Connection) (ctx : Bool)
    (r : Round) (fits : size * 8 < two_64) (room : length (c ∷ cs) ≤ size * 8)
    (opened : is_nonneg c.sockfd ≡ true) where
  abbrev world : World
  world = record { conns = c ∷ cs; ctx = ctx }

  set_up :
      (s : FdSets) × (setup_connection_fdsets r.resolve args (c ∷ cs) size (replicate size 0)
        ≡ done (setup_result s))
      × Filled r.resolve args size 0 (c ∷ cs) (replicate size 0) s
  unfolding setup_connection_fdsets
  set_up =
      let (s, run, f) =
        setup_from-Filled r.resolve args size 0 (c ∷ cs) (replicate size 0)
          (zeros-IsBitmap size fits) (omega arith) in
      (s, rw (opened, run) refl, f)

  pub run_round-refused :
      clear 0 (c ∷ cs) ≡ false
      → run_round args size world r
        ≡ done (continue (record { conns = after_setup r.resolve args 0 (c ∷ cs); ctx = ctx }))
  unfolding run_round
  run_round-refused h =
      let (s, run, f) = set_up in
      let failed : s.ok ≡ false = f.ok ∙ h in
      rw run (unfold setup_result in rw (failed, f.conns) refl)

  -- One round in which `poll` answers, with connections that fit the bitmap, the first with a descriptor that is not negative, and no TLS handshake at an index of 64 or more: nothing is read outside the array or the bitmap, and each connection is treated as if by itself, once. One that is over gets a new socket; one that waits is handled with the events that `poll` has given for its own descriptor, in the order of the connections; an idle one stays as it is.
  pub run_round-each :
      (revents : PollFd → Events)
      → clear 0 (c ∷ cs) ≡ true
      → r.poll ≡ ready revents
      → run_round args size world r
        ≡ done (continue (poll_each r.resolve args revents r.answers 0 ctx (c ∷ cs)))
  unfolding run_round setup_result
  run_round-each revents h p =
      let (s, run, f) = set_up in
      let fine : s.ok ≡ true = f.ok ∙ h in
      let bits : (q : ℕ) → 0 ≤ q → bit s.bitmap q ≡ marked 0 (c ∷ cs) q =
        λ q _. ground (arith, f.bits fine q, zeros-bit size q) in
      let each =
        ap (λ l. handle_from args revents r.answers size s.bitmap 0 ctx l s.polled) f.conns
        ∙ ap
            (handle_from args revents r.answers size s.bitmap 0 ctx
              (after_setup r.resolve args 0 (c ∷ cs)))
            (f.polled fine)
        ∙ handle_from-each r.resolve args revents r.answers size s.bitmap f.good 0 ctx (c ∷ cs) h
            (omega arith) bits in
      rw run (
        simp p (
          polled_or_not r.resolve args size r ctx (c ∷ cs) revents s fine f.conns (f.polled fine)
            each))

  -- Without an event the connections are as the set-up leaves them.
  pub run_round-no_event :
      (r.poll ≡ timeout) ⊎ (r.poll ≡ failure)
      → (n : Next) × (run_round args size world r ≡ done n)
        × (world_of n ≡ record { conns = after_setup r.resolve args 0 (c ∷ cs); ctx = ctx })
  unfolding run_round
  run_round-no_event p =
      let (s, run, f) = set_up in
      let (n, goes, w) =
        no_event args r size ctx (is_positive (setup_result s).count) (setup_result s) r.poll p in
      let same : (setup_result s).conns ≡ after_setup r.resolve args 0 (c ∷ cs) =
        unfold setup_result in f.conns in
      (n, rw run goes, w ∙ ap (λ l. record { conns = l; ctx = ctx }) same)

-- ===== src/Poll/Setup/Marks.antt =====
-- src/bench_poll.c: what `setup_connection_fdsets` leaves in the array, the bitmap and the
-- connections.
use web_bench.Prelude.{
  ℕ, suc, ◌+◌, ◌*◌, ◌/◌, get_elem?, ◌≤◌, ◌<◌, ◌≡◌, refl, ap, ◌∙◌, true, false, ◌||◌, none, some,
  List, [], ◌∷◌, length, arith, Option-cases, Bool-cases, inl, inr, done,
}
use web_bench.Prelude.Int.{pos, minus_one}
use web_bench.Arguments.{Arguments}
use web_bench.Connection.{
  Connection, ConnState, idle, connecting, proxy_connect, proxy_response, tls_handshake, sending,
  receiving, completed, error,
}
use web_bench.Bitmap.{set_bitmap}
use web_bench.Bitmap.Laws.{
  IsBitmap, bit, byte, written, written-IsBitmap, set_bitmap-written, bit-written,
}
use web_bench.Epoll.Socket.{Resolver}
use web_bench.Epoll.Setup.{Interest}
use web_bench.Poll.Setup.{wanted, marked_size, restart, FdSets, with_conn, with_entry, setup_from}
use web_bench.Poll.Setup.Spec.{
  blocked, clear, after_setup, entries_of, marked, unwanted_free, restart-wanted,
}

-- What the loop leaves.
pub record Filled (resolve : ℕ → Resolver) (args : Arguments) (size i : ℕ) (cs : List Connection)
    (bitmap : List ℕ) (s : FdSets) : Type 0 where
  pub conns : s.conns ≡ after_setup resolve args i cs
  pub ok : s.ok ≡ clear i cs
  pub polled : s.ok ≡ true → s.polled ≡ entries_of cs
  pub good : IsBitmap size s.bitmap
  pub bits : s.ok ≡ true → (q : ℕ) → bit s.bitmap q ≡ (marked i cs q || bit bitmap q)

module _ (n : ℕ) (bytes : List ℕ) (h : IsBitmap n bytes) (i : ℕ) (r : i < n * 8) where
  pointer_size : i < 64 → set_bitmap i (some bytes) (pos 8) ≡ set_bitmap i (some bytes) (pos n)
  unfolding set_bitmap
  pointer_size small = let f = h.fits in ground arith

  pointer_size_refused : 64 ≤ i → set_bitmap i (some bytes) (pos 8) ≡ done (minus_one, some bytes)
  unfolding set_bitmap
  pointer_size_refused large = ground arith

  set_bitmap-marked :
      (s : ConnState)
      → blocked i s ≡ false
      → set_bitmap i (some bytes) (pos (marked_size s n)) ≡ set_bitmap i (some bytes) (pos n)
  set_bitmap-marked tls_handshake b = pointer_size (ground arith)
  set_bitmap-marked idle b = refl
  set_bitmap-marked connecting b = refl
  set_bitmap-marked proxy_connect b = refl
  set_bitmap-marked proxy_response b = refl
  set_bitmap-marked sending b = refl
  set_bitmap-marked receiving b = refl
  set_bitmap-marked completed b = refl
  set_bitmap-marked error b = refl

  set_bitmap-blocked :
      (s : ConnState)
      → blocked i s ≡ true
      → set_bitmap i (some bytes) (pos (marked_size s n)) ≡ done (minus_one, some bytes)
  set_bitmap-blocked tls_handshake b = pointer_size_refused (ground arith)
  set_bitmap-blocked idle b = cc
  set_bitmap-blocked connecting b = cc
  set_bitmap-blocked proxy_connect b = cc
  set_bitmap-blocked proxy_response b = cc
  set_bitmap-blocked sending b = cc
  set_bitmap-blocked receiving b = cc
  set_bitmap-blocked completed b = cc
  set_bitmap-blocked error b = cc

module _ (resolve : ℕ → Resolver) (args : Arguments) (size i : ℕ) (c : Connection)
    (cs : List Connection) (bitmap : List ℕ) where
  filled_unwanted :
      (s : FdSets)
      → wanted c.state ≡ none
      → Filled resolve args size (suc i) cs bitmap s
      → Filled resolve args size i
          (c ∷ cs)
          bitmap
          (with_conn (restart (resolve i) args c.state c) s)
  unfolding after_setup clear entries_of marked
  filled_unwanted s w f =
      let free = unwanted_free i c.state w in
      record {
        conns = rw free (ap (λ r. restart (resolve i) args c.state c ∷ r) f.conns);
        ok = rw free f.ok;
        polled = λ e. rw (w, entries_of) (f.polled e);
        good = f.good;
        bits = λ e q. ground (arith, f.bits e q);
      }

  filled_refused :
      blocked i c.state ≡ true
      → IsBitmap size bitmap
      → Filled resolve args size i
          (c ∷ cs)
          bitmap
          (record { conns = c ∷ cs; polled = []; bitmap = bitmap; ok = false })
  unfolding after_setup clear
  filled_refused b h = record {
    conns = rw b refl;
    ok = rw b refl;
    polled = λ e. cc;
    good = h;
    bits = λ e q. cc;
  }

  filled_wanted :
      (events : Interest) (h : IsBitmap size bitmap) (r : i < size * 8) (b : ℕ)
      → (e : get_elem? bitmap (i / 8) ≡ some b) → wanted c.state ≡ some events
      → blocked i c.state ≡ false
      → (s : FdSets) → Filled resolve args size (suc i) cs (written size bitmap h i b) s
      → Filled resolve args size i (c ∷ cs) bitmap (with_entry c events s)
  unfolding after_setup clear entries_of marked
  filled_wanted events h r b e w free s f = record {
    conns = rw (free, restart-wanted (resolve i) args c.state c events w) (ap (λ r. c ∷ r) f.conns);
    ok = rw free f.ok;
    polled = λ k.
        rw (w, entries_of) (ap (λ r. record { fd = c.sockfd; events = events } ∷ r) (f.polled k));
    good = f.good;
    bits = λ k q. ground (arith, f.bits k q, bit-written size bitmap h i b r e q);
  }

pub setup_from-Filled :
    (resolve : ℕ → Resolver) (args : Arguments) (size i : ℕ) (cs : List Connection)
    (bitmap : List ℕ)
    → IsBitmap size bitmap
    → i + length cs ≤ size * 8
    → (s : FdSets) × (setup_from resolve args size i cs bitmap ≡ done s)
      × Filled resolve args size i cs bitmap s
unfolding setup_from after_setup clear entries_of marked bit
setup_from-Filled resolve args size i [] bitmap h r = (
  record { conns = []; polled = []; bitmap = bitmap; ok = true },
  refl,
  record { conns = refl; ok = refl; polled = λ e. refl; good = h; bits = λ e q. refl },
)
setup_from-Filled resolve args size i (c ∷ cs) bitmap h r = elim (Option-cases (wanted c.state)) [
  | inl w ↦
      let (s, e, f) = setup_from-Filled resolve args size (suc i) cs bitmap h (omega arith) in
      (
        with_conn (restart (resolve i) args c.state c) s,
        rw (w, setup_from, e) refl,
        filled_unwanted resolve args size i c cs bitmap s w f,
      )
  | inr (events, w) ↦ elim (Bool-cases (blocked i c.state)) [
    | inl b ↦ (
      record { conns = c ∷ cs; polled = []; bitmap = bitmap; ok = false },
      rw (w, setup_from, set_bitmap-blocked size bitmap h i (omega arith) c.state b) refl,
      filled_refused resolve args size i c cs bitmap b h,
    )
    | inr free ↦
        let (b, e) = byte size bitmap h i (omega arith) in
        let (s, run, f) =
          setup_from-Filled resolve args size (suc i) cs (written size bitmap h i b)
            (written-IsBitmap size bitmap h i b (omega arith) e) (omega arith) in
        (
          with_entry c events s,
          rw
              (
                w,
                setup_from,
                set_bitmap-marked size bitmap h i (omega arith) c.state free
                    ∙ set_bitmap-written size bitmap h i b (omega arith) e,
                run,
              )
              refl,
          filled_wanted resolve args size i c cs bitmap events h (omega arith) b e w free s f,
        )
  ]
]

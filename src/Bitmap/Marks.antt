-- ===== src/Bitmap/Marks.antt =====
-- src/bitmap.c: what its two functions promise to the poll loop, which clears a bitmap, marks
-- connections in it and then asks for each connection whether it is marked.
use web_bench.Prelude.{
  ℕ, ◌*◌, ◌≤◌, ◌<◌, ◌≡◌, refl, Bool, false, ◌||◌, none, some, List, [], ◌∷◌, ◌==◌, if◌then◌else◌,
  All, replicate, arith, Outcome, done, fault, ◌>>=◌,
}
use web_bench.Prelude.Int.{pos, minus_one, two_64}
use web_bench.Bitmap.{set_bitmap, get_bitmap}
use web_bench.Bitmap.Laws.{
  IsBitmap, bit, byte, written, written-IsBitmap, set_bitmap-written, bit-written, get_bitmap-bit,
  byte_zero, zeros-bit, zeros-IsBitmap,
}

-- A read after a write in range: the write succeeds, answers the position and leaves a bitmap of the same size, in which the written position reads 1 and every other position reads what it read before.
pub get_bitmap-set_bitmap :
    (n p : ℕ) (bytes : List ℕ)
    → IsBitmap n bytes
    → p < n * 8
    → (bytes' : List ℕ) × (set_bitmap p (some bytes) (pos n) ≡ done (pos p, some bytes'))
      × IsBitmap n bytes'
      × ((q : ℕ)
          → q < n * 8
          → get_bitmap q (some bytes') (pos n)
            ≡ (if p == q then done (pos 1) else get_bitmap q (some bytes) (pos n)))
get_bitmap-set_bitmap n p bytes h r =
    let (b, e) = byte n bytes h p r in
    let h' = written-IsBitmap n bytes h p b r e in
    (
      written n bytes h p b,
      set_bitmap-written n bytes h p b r e,
      h',
      λ q rq. ground (
        arith,
        get_bitmap-bit n _ h' q rq,
        get_bitmap-bit n bytes h q rq,
        bit-written n bytes h p b r e q,
      ),
    )

-- A position behind the last bit is refused by both functions, which answer -1, and the bitmap stays as it is.
pub bitmap_out_of_range :
    (n p : ℕ) (bytes : List ℕ)
    → IsBitmap n bytes
    → n * 8 ≤ p
    → (set_bitmap p (some bytes) (pos n) ≡ done (minus_one, some bytes))
      × (get_bitmap p (some bytes) (pos n) ≡ done minus_one)
unfolding set_bitmap get_bitmap
bitmap_out_of_range n p bytes h r = let f = h.fits in (ground arith, ground arith)

-- The calls that mark the positions of a list, one after the other.
unfoldable pub mark_all : ℕ → List ℕ → List ℕ → Outcome (List ℕ)
mark_all n bytes [] = done bytes
mark_all n bytes (p ∷ ps) = set_bitmap p (some bytes) (pos n) >>= λ r. elim r.1 [
  | none ↦ fault
  | some bytes' ↦ mark_all n bytes' ps
]

abbrev pub member : ℕ → List ℕ → Bool
member q [] = false
member q (p ∷ ps) = (p == q) || member q ps

mark_all-bit :
    (n : ℕ) (bytes ps : List ℕ)
    → IsBitmap n bytes
    → All (λ p. p < n * 8) ps
    → (bytes' : List ℕ) × (mark_all n bytes ps ≡ done bytes')
      × IsBitmap n bytes'
      × ((q : ℕ) → bit bytes' q ≡ (member q ps || bit bytes q))
unfolding mark_all
mark_all-bit n bytes [] h r = (bytes, refl, h, λ q. refl)
mark_all-bit n bytes (p ∷ ps) h r =
    let (b, e) = byte n bytes h p r.0 in
    let (out, run, good, bits) =
      mark_all-bit n (written n bytes h p b) ps (written-IsBitmap n bytes h p b r.0 e) r.1 in
    (
      out,
      rw (set_bitmap-written n bytes h p b r.0 e) run,
      good,
      λ q. ground (arith, bits q, bit-written n bytes h p b r.0 e q),
    )

-- After `memset(bitmap, 0, n)` and calls that mark the positions of a list, all in range, no call has faulted and a read in range answers 1 if the position is in the list, and 0 if not.
pub get_bitmap-mark_all :
    (n q : ℕ) (ps : List ℕ)
    → n * 8 < two_64
    → All (λ p. p < n * 8) ps
    → q < n * 8
    → (bytes : List ℕ) × (mark_all n (replicate n byte_zero) ps ≡ done bytes)
      × (get_bitmap q (some bytes) (pos n) ≡ done (if member q ps then pos 1 else pos 0))
get_bitmap-mark_all n q ps f r rq =
    let (bytes, run, good, bits) =
      mark_all-bit n (replicate n byte_zero) ps (zeros-IsBitmap n f) r in
    (bytes, run, ground (arith, get_bitmap-bit n bytes good q rq, bits q, zeros-bit n q))

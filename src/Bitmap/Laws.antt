-- ===== src/Bitmap/Laws.antt =====
-- src/bitmap.c: a read after a write, the bounds, and the set of positions that a bitmap stands for.
use Prim.Native.Nat.{bit_and, bit_or}
use native.Mathlib.Decide.{ℕ_discrete}
use web_bench.Prelude.{
  subst, ℕ, zero, suc, ◌*◌, ◌/◌, ◌%◌, ◌<◌, ◌≡◌, refl, ap, ◌∙◌, ◌≢◌, ◌⊎◌, inl, inr, Bool, true,
  false, ◌&&◌, ◌||◌, none, some, List, [], ◌∷◌, ltb, ltb→lt, ◌==◌, if◌then◌else◌, get_elem?, set,
  done, length, All, arith, get_elem?_in, get_elem?-set_self, get_elem?-set_ne, length-set,
  replicate,
}
use web_bench.Prelude.Int.{pos, two_64}
use web_bench.Bitmap.{bit_mask, set_bitmap, get_bitmap}

-- A test that every number under a bound passes, from the greatest one down.
passes : (ℕ → Bool) → ℕ → Bool
passes test zero = true
passes test (suc bound) = if test bound then passes test bound else false

passes-at : (test : ℕ → Bool) (bound k : ℕ) → k < bound → passes test bound ≡ true → test k ≡ true
unfolding passes
passes-at test zero k below h = absurd (omega arith)
passes-at test (suc bound) k below h = ground (arith, passes-at test bound k)

-- The bit at an offset of a byte, 0 being the highest.
abbrev pub bit_at : ℕ → ℕ → Bool
bit_at byte offset = if bit_and byte (bit_mask offset) == 0 then false else true

abbrev same : Bool → Bool → Bool
same true b = b
same false true = false
same false false = true

bit_table :
    passes
      (λ b.
        passes
          (λ k.
            passes
              (λ j.
                same (bit_at (bit_or b (bit_mask k)) j) ((k == j) || bit_at b j)
                && ltb (bit_or b (bit_mask k)) 256)
              8)
          8)
      256
    ≡ true
unfolding passes
bit_table = refl

same-eq : (a b : Bool) → same a b ≡ true → a ≡ b
same-eq a b h = ground arith

and_parts : (x y : Bool) → (x && y) ≡ true → (x ≡ true) × (y ≡ true)
and_parts x y h = ground arith

module _ (b k j : ℕ) (hb : b < 256) (hk : k < 8) (hj : j < 8) where
  bit_row :
      (same (bit_at (bit_or b (bit_mask k)) j) ((k == j) || bit_at b j)
        && ltb (bit_or b (bit_mask k)) 256)
      ≡ true
  bit_row = passes-at _ 8 j hj (passes-at _ 8 k hk (passes-at _ 256 b hb bit_table))

  bit_at-bit_or : bit_at (bit_or b (bit_mask k)) j ≡ ((k == j) || bit_at b j)
  bit_at-bit_or = same-eq _ _ (and_parts _ _ bit_row).0

  bit_or-lt : bit_or b (bit_mask k) < 256
  bit_or-lt = ltb→lt _ _ (and_parts _ _ bit_row).1

abbrev pub byte_zero : ℕ
byte_zero = 0

-- The bit at a position; the positions behind the last byte are not set.
unfoldable pub bit : List ℕ → ℕ → Bool
bit bytes q = elim (get_elem? bytes (q / 8)) [ none ↦ false | some b ↦ bit_at b (q % 8) ]

zero_table : passes (λ j. if bit_at 0 j then false else true) 8 ≡ true
unfolding passes
zero_table = refl

bit_at_zero : (j : ℕ) → j < 8 → bit_at 0 j ≡ false
bit_at_zero j h =
    let t = passes-at (λ j. if bit_at 0 j then false else true) 8 j h zero_table in ground arith

zeros-get_elem? :
    (n i : ℕ)
    → (get_elem? (replicate n (byte_zero)) i ≡ none)
      ⊎ (get_elem? (replicate n byte_zero) i ≡ some 0)
zeros-get_elem? zero i = inl refl
zeros-get_elem? (suc n) zero = inr refl
zeros-get_elem? (suc n) (suc i) = zeros-get_elem? n i

pub zeros-bit : (n q : ℕ) → bit (replicate n byte_zero) q ≡ false
unfolding bit
zeros-bit n q = elim (zeros-get_elem? n (q / 8)) [
  | inl e ↦ ground arith
  | inr e ↦ ground (arith, bit_at_zero (q % 8) (omega arith))
]

-- A bitmap of `n` bytes, whose number of bits is a `size_t`.
pub record IsBitmap (n : ℕ) (bytes : List ℕ) : Type 0 where
  pub size : length bytes ≡ n
  pub small : All (λ b. b < 256) bytes
  pub fits : n * 8 < two_64

All-get_elem? :
    (bytes : List ℕ) (i b : ℕ) → All (λ b. b < 256) bytes → get_elem? bytes i ≡ some b → b < 256
All-get_elem? [] i b h e = cc
All-get_elem? (x ∷ bytes) zero b h e = let small = h.0 in ground arith
All-get_elem? (x ∷ bytes) (suc i) b h e = All-get_elem? bytes i b h.1 e

zeros_length : (n : ℕ) → length (replicate n byte_zero) ≡ n
zeros_length zero = refl
zeros_length (suc n) = ap suc (zeros_length n)

zeros_small : (n : ℕ) → All (λ b. b < 256) (replicate n byte_zero)
zeros_small zero = tt
zeros_small (suc n) = (omega arith, zeros_small n)

All-set :
    (bytes : List ℕ) (i b : ℕ)
    → All (λ b. b < 256) bytes
    → b < 256
    → All (λ b. b < 256) (set bytes i b)
All-set [] i b h e = tt
All-set (x ∷ bytes) zero b h e = (e, h.1)
All-set (x ∷ bytes) (suc i) b h e = (h.0, All-set bytes i b h.1 e)

module _ (n : ℕ) (bytes : List ℕ) (h : IsBitmap n bytes) where
  pub byte : (q : ℕ) → q < n * 8 → (b : ℕ) × (get_elem? bytes (q / 8) ≡ some b)
  byte q r = get_elem?_in bytes (q / 8) (omega (arith, h.size))

  -- A read in range is the bit.
  pub get_bitmap-bit :
      (q : ℕ)
      → q < n * 8
      → get_bitmap q (some bytes) (pos n) ≡ done (if bit bytes q then pos 1 else pos 0)
  unfolding get_bitmap bit
  get_bitmap-bit q r = let (b, e) = byte q r in let f = h.fits in ground arith

  -- The bytes after a write.
  pub written : ℕ → ℕ → List ℕ
  written p b = set bytes (p / 8) (bit_or b (bit_mask (p % 8)))

  module _ (p b : ℕ) (r : p < n * 8) (e : get_elem? bytes (p / 8) ≡ some b) where
    pub set_bitmap-written : set_bitmap p (some bytes) (pos n) ≡ done (pos p, some (written p b))
    unfolding set_bitmap written
    set_bitmap-written = let f = h.fits in ground arith

    small_byte : b < 256
    small_byte = All-get_elem? bytes (p / 8) b h.small e

    pub written-IsBitmap : IsBitmap n (written p b)
    unfolding written
    written-IsBitmap = record {
      size = length-set bytes (p / 8) _ ∙ h.size;
      small =
          All-set bytes (p / 8) _ h.small
            (bit_or-lt b (p % 8) 0 small_byte (omega arith) (omega arith));
      fits = h.fits;
    }

    bit-written_same : (q : ℕ) → p / 8 ≡ q / 8 → bit (written p b) q ≡ ((p == q) || bit bytes q)
    unfolding bit written
    bit-written_same q s =
        let got : get_elem? (written p b) (q / 8) ≡ some (bit_or b (bit_mask (p % 8))) =
          subst (λ i. get_elem? (written p b) i ≡ some (bit_or b (bit_mask (p % 8)))) s
            (get_elem?-set_self bytes (p / 8) _ (omega (arith, h.size))) in
        let old : get_elem? bytes (q / 8) ≡ some b = subst (λ i. get_elem? bytes i ≡ some b) s e in
        ground (arith, bit_at-bit_or b (p % 8) (q % 8) small_byte (omega arith) (omega arith))

    bit-written_other : (q : ℕ) → p / 8 ≢ q / 8 → bit (written p b) q ≡ ((p == q) || bit bytes q)
    unfolding bit written
    bit-written_other q s = ground (arith, get_elem?-set_ne bytes (bit_or b (bit_mask (p % 8))) s)

    pub bit-written : (q : ℕ) → bit (written p b) q ≡ ((p == q) || bit bytes q)
    bit-written q = elim (ℕ_discrete (p / 8) (q / 8)) [
      | yes s ↦ bit-written_same q s
      | no s ↦ bit-written_other q s
    ]

pub zeros-IsBitmap : (n : ℕ) → n * 8 < two_64 → IsBitmap n (replicate n byte_zero)
zeros-IsBitmap n h = record { size = zeros_length n; small = zeros_small n; fits = h }

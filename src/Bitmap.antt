-- ===== src/Bitmap.antt =====
-- src/bitmap.c: the bit array by which the poll loop marks the connections that it polls.
--
-- A bitmap is `none` for NULL, or the list of its bytes as 8-bit patterns. The size is the `int`
-- that the caller passes, which is converted to `size_t` in the guard; the list's own length is what
-- the memory behind the pointer holds, and an access outside it is a fault. The two diagnostics on
-- stderr are left out. A position is the value of an `unsigned short`, so a caller passes one below
-- 65536.
pub mod Laws
pub mod Marks
use Prim.Native.Nat.{bit_and, bit_or}
use web_bench.Prelude.{
  ℕ, ◌+◌, ◌*◌, ◌/◌, ◌%◌, ◌^◌, ◌≡◌, Option, none, some, List, [], ◌∷◌, leb, ◌==◌, if◌then◌else◌,
  get_elem?, set, Outcome, done, fault,
}
use web_bench.Prelude.Int.{ℤ, pos, minus_one, to_size, two_64}

-- `bitmap_size * sizeof(char) * 8`, as a `size_t`.
abbrev pub bit_count : ℤ → ℕ
bit_count size = (to_size size * 8) % two_64

-- `0x80 >> offset`, as the byte that it is.
abbrev pub bit_mask : ℕ → ℕ
bit_mask offset = 128 / 2 ^ offset

write_bit : ℕ → List ℕ → Outcome (ℤ × Option (List ℕ))
write_bit position bytes = elim (get_elem? bytes (position / 8)) [
  | none ↦ fault
  | some byte ↦
      done (pos position, some (set bytes (position / 8) (bit_or byte (bit_mask (position % 8)))))
]

-- The result, and the bitmap after the call.
unfoldable pub set_bitmap : ℕ → Option (List ℕ) → ℤ → Outcome (ℤ × Option (List ℕ))
unfolding write_bit
set_bitmap position none size = done (minus_one, none)
set_bitmap position (some bytes) size =
    if leb (bit_count size) position then done (minus_one, some bytes) else write_bit position bytes

read_bit : ℕ → List ℕ → Outcome ℤ
read_bit position bytes = elim (get_elem? bytes (position / 8)) [
  | none ↦ fault
  | some byte ↦ done (if bit_and byte (bit_mask (position % 8)) == 0 then pos 0 else pos 1)
]

unfoldable pub get_bitmap : ℕ → Option (List ℕ) → ℤ → Outcome ℤ
unfolding read_bit
get_bitmap position none size = done minus_one
get_bitmap position (some bytes) size =
    if leb (bit_count size) position then done minus_one else read_bit position bytes

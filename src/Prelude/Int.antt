-- ===== src/Prelude/Int.antt =====
-- Signed integers over the native numbers, and the C integer types read through them.
use Prim.Native.Nat.{ℕ, ◌+◌, ◌-◌, ◌%◌}
use mathlib.Core.Bool.{Bool, true, false}
use web_bench.Prelude.Tests.{ltb, leb, ◌==◌, if◌then◌else◌}

-- `negsuc n` is -(n + 1).
pub data ℤ : Type 0 where
  pos : ℕ → ℤ
  negsuc : ℕ → ℤ

-- The C constant -1, the error code of most functions here.
abbrev pub minus_one : ℤ
minus_one = negsuc 0

-- a > 0, a >= 0 and a == 0.
abbrev pub is_positive : ℤ → Bool
is_positive (pos n) = ltb 0 n
is_positive (negsuc n) = false

abbrev pub is_nonneg : ℤ → Bool
is_nonneg (pos n) = true
is_nonneg (negsuc n) = false

abbrev pub is_zero : ℤ → Bool
is_zero (pos n) = leb n 0
is_zero (negsuc n) = false

-- a == k for a constant k that is not negative.
abbrev pub equals : ℕ → ℤ → Bool
equals k (pos n) = n == k
equals k (negsuc n) = false

-- a > k and a <= k for a constant k that is not negative.
abbrev pub above : ℕ → ℤ → Bool
above k (pos n) = ltb k n
above k (negsuc n) = false

abbrev pub at_most : ℕ → ℤ → Bool
at_most k (pos n) = leb n k
at_most k (negsuc n) = true

abbrev pub two_32 : ℕ
two_32 = 4294967296

abbrev pub two_31 : ℕ
two_31 = 2147483648

abbrev pub two_63 : ℕ
two_63 = 9223372036854775808

abbrev pub two_64 : ℕ
two_64 = 18446744073709551616

-- The value that the low 32 bits of a word stand for as an `int`.
abbrev pub to_int : ℕ → ℤ
to_int w = let v = w % two_32 in if ltb v two_31 then pos v else negsuc (two_32 - v - 1)

-- The bits of a signed value as a `size_t`.
abbrev pub to_size : ℤ → ℕ
to_size (pos n) = n % two_64
to_size (negsuc n) = two_64 - (n % two_64) - 1

-- `(int) t` for a `long t`.
abbrev pub int_of_long : ℤ → ℤ
int_of_long t = to_int (to_size t)

-- Additions of `size_t`, and of an `int` held as its 32 bits.
abbrev pub add_size : ℕ → ℕ → ℕ
add_size a b = (a + b) % two_64

abbrev pub sub_size : ℕ → ℕ → ℕ
sub_size a b = (a + two_64 - b) % two_64

abbrev pub add_int : ℕ → ℕ → ℕ
add_int a b = (a + b) % two_32

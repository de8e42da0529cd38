-- ===== src/Prelude/Digits.antt =====
-- Decimal digits: what `%d` prints and what `strtol` reads in base 10, and that the second reads
-- back the first.
use Prim.Native.Nat.{ℕ, zero, suc, ◌+◌, ◌-◌, ◌*◌, ◌/◌, ◌%◌, ◌^◌, ◌≤◌, ◌<◌}
use mathlib.Core.Path.{◌≡◌, ap, ◌∙◌}
use mathlib.Core.Logic.{inl, inr}
use mathlib.Core.Bool.{Bool, true, ◌&&◌}
use mathlib.Core.List.{List, [], ◌∷◌, ◌++◌}
use native.Mathlib.Omega.{arith}
use native.Mathlib.Nat.{pow-suc}
use web_bench.Prelude.Tests.{ltb, leb, if◌then◌else◌, Bool-cases, ltb→lt, ltb→ge}
use web_bench.Prelude.Lists.{length, All}
use web_bench.Prelude.Int.{ℤ, pos, negsuc}

abbrev pub is_digit : ℕ → Bool
is_digit c = leb 48 c && leb c 57

abbrev pub IsDigit : ℕ → Type 0
IsDigit c = (48 ≤ c) × (c ≤ 57)

-- The digits of `n` in front of `out`, on fuel above `n`.
digits_loop : ℕ → ℕ → List ℕ → List ℕ
digits_loop zero n out = out
digits_loop (suc f) n out =
    let rest = digits_loop f (n / 10) ((48 + n % 10) ∷ out) in
    if ltb n 10 then (48 + n) ∷ out else rest

unfoldable pub print_nat : ℕ → List ℕ
unfolding digits_loop
print_nat n = digits_loop (suc n) n []

unfoldable pub print_int : ℤ → List ℕ
unfolding print_nat
print_int (pos n) = print_nat n
print_int (negsuc n) = b'-' ∷ print_nat (suc n)

-- The value of the leading digits after `acc`, and how many they are.
unfoldable pub scan_value : ℕ → List ℕ → ℕ
scan_value acc [] = acc
scan_value acc (c ∷ s) =
    let rest = scan_value (acc * 10 + (c - 48)) s in if is_digit c then rest else acc

unfoldable pub scan_count : List ℕ → ℕ
scan_count [] = 0
scan_count (c ∷ s) = if is_digit c then suc (scan_count s) else 0

is_digit_digit : (d : ℕ) → d < 10 → is_digit (48 + d) ≡ true
is_digit_digit d h = ground arith

scan_value-digit :
    (acc d : ℕ) (s : List ℕ) → d < 10 → scan_value acc ((48 + d) ∷ s) ≡ scan_value (acc * 10 + d) s
unfolding scan_value
scan_value-digit acc d s h =
    rw (is_digit_digit d h) (ap (λ v. scan_value v s) {y = acc * 10 + d} (omega arith))

digits_loop-scan_value :
    (f n : ℕ) (out t : List ℕ)
    → n < f
    → scan_value 0 (digits_loop f n out ++ t) ≡ scan_value n (out ++ t)
unfolding digits_loop
digits_loop-scan_value zero n out t h = elim h [ ]
digits_loop-scan_value (suc f) n out t h = elim (Bool-cases (ltb n 10)) [
  | inl small ↦ rw small (
      scan_value-digit 0 n (out ++ t) (ltb→lt n 10 small)
      ∙ ap (λ v. scan_value v (out ++ t)) {y = n} (omega arith))
  | inr big ↦ rw big (
      digits_loop-scan_value f (n / 10) ((48 + n % 10) ∷ out) t (omega (arith, ltb→ge n 10 big))
      ∙ scan_value-digit (n / 10) (n % 10) (out ++ t) (omega arith)
      ∙ ap (λ v. scan_value v (out ++ t)) {y = n} (omega arith))
]

digits_loop-IsDigit : (f n : ℕ) (out : List ℕ) → All IsDigit out → All IsDigit (digits_loop f n out)
unfolding digits_loop
digits_loop-IsDigit zero n out h = h
digits_loop-IsDigit (suc f) n out h = elim (Bool-cases (ltb n 10)) [
  | inl small ↦ rw small ((omega arith, omega (arith, ltb→lt n 10 small)), h)
  | inr big ↦
      rw big (digits_loop-IsDigit f (n / 10) ((48 + n % 10) ∷ out) ((omega arith, omega arith), h))
]

-- The digits are at most as many as the power of ten asks for.
digits_loop-length :
    (k f n : ℕ) (out : List ℕ) → n < 10 ^ suc k → length (digits_loop f n out) ≤ length out + suc k
unfolding digits_loop
digits_loop-length k zero n out h = omega arith
digits_loop-length zero (suc f) n out h =
    let e : n < 10 = h in
    elim (Bool-cases (ltb n 10)) [
      | inl small ↦ rw small (omega arith)
      | inr big ↦ absurd (omega (arith, ltb→ge n 10 big))
    ]
digits_loop-length (suc k) (suc f) n out h = elim (Bool-cases (ltb n 10)) [
  | inl small ↦ rw small (omega arith)
  | inr big ↦ rw big (
      omega (
        arith,
        digits_loop-length k f (n / 10) ((48 + n % 10) ∷ out) (omega (arith, pow-suc 10 (suc k))),
      ))
]

digits_loop_longer : (f n : ℕ) (out : List ℕ) → length out ≤ length (digits_loop f n out)
unfolding digits_loop
digits_loop_longer zero n out = omega arith
digits_loop_longer (suc f) n out = elim (Bool-cases (ltb n 10)) [
  | inl small ↦ rw small (omega arith)
  | inr big ↦ rw big (omega (arith, digits_loop_longer f (n / 10) ((48 + n % 10) ∷ out)))
]

pub print_nat_pos : (n : ℕ) → 0 < length (print_nat n)
unfolding print_nat digits_loop
print_nat_pos n = elim (Bool-cases (ltb n 10)) [
  | inl small ↦ rw small (omega arith)
  | inr big ↦ rw big (omega (arith, digits_loop_longer n (n / 10) ((48 + n % 10) ∷ [])))
]

pub print_nat-IsDigit : (n : ℕ) → All IsDigit (print_nat n)
unfolding print_nat
print_nat-IsDigit n = digits_loop-IsDigit (suc n) n [] tt

pub scan_value-print_nat : (n : ℕ) (t : List ℕ) → scan_value 0 (print_nat n ++ t) ≡ scan_value n t
unfolding print_nat
scan_value-print_nat n t = digits_loop-scan_value (suc n) n [] t (omega arith)

pub length-print_nat : (k n : ℕ) → n < 10 ^ suc k → length (print_nat n) ≤ suc k
unfolding print_nat
length-print_nat k n h = omega (arith, digits_loop-length k (suc n) n [] h)

pub scan_count-append :
    (ds t : List ℕ) → All IsDigit ds → scan_count (ds ++ t) ≡ length ds + scan_count t
unfolding scan_count
scan_count-append [] t h = omega arith
scan_count-append (d ∷ ds) t h = ground (arith, scan_count-append ds t h.1)

-- ===== src/CString/Laws.antt =====
-- Facts about the string functions that the components share.
use web_bench.Prelude.{
  ◌+◌, ◌⊎◌, ℕ, suc, ◌-◌, ◌<◌, ◌≡◌, refl, ap, ◌∙◌, false, none, some, List, [], ◌∷◌, ◌++◌, arith,
  ◌==◌, length, take, All, take-append_take, sym, append-nil, length-append, length-take,
}
use web_bench.Prelude.Int.{pos, two_63}
use web_bench.Prelude.Digits.{
  IsDigit, print_nat, scan_value, scan_count, print_nat-IsDigit, scan_value-print_nat,
  scan_count-append, print_nat_pos,
}
use web_bench.CString.{
  strncat_sized, snprintf, strchr, strrchr, strtol, skip_spaces, strtol_sign, strtol_digits,
}

-- A bounded append to a bounded string is the bounded append of the whole.
pub strncat_sized-take :
    (size : ℕ) (s t : List ℕ) → strncat_sized (suc size) (take size s) t ≡ take size (s ++ t)
unfolding strncat_sized
strncat_sized-take size s t =
    ap (λ k. take size s ++ take k t) {y = size - length (take size s)} (omega arith)
    ∙ take-append_take size s t

-- Neither function leaves its array: there is room for the NUL.
pub length-strncat_sized :
    (size : ℕ) (dst src : List ℕ) → length dst < size → length (strncat_sized size dst src) < size
unfolding strncat_sized
length-strncat_sized size dst src h = omega (
  arith,
  length-append dst (take (size - length dst - 1) src),
  length-take (size - length dst - 1) src,
)

pub length-snprintf : (size : ℕ) (src : List ℕ) → 0 < size → length (snprintf size src) < size
unfolding snprintf
length-snprintf size src h = omega (arith, length-take (size - 1) src)

-- A byte does not occur in a string.
abbrev pub Lacks : ℕ → List ℕ → Type 0
Lacks c = All (λ x. (x == c) ≡ false)

pub strchr_first : (s t : List ℕ) (c : ℕ) → Lacks c s → strchr (s ++ c ∷ t) c ≡ some (length s)
unfolding strchr
strchr_first [] t c h = ground arith
strchr_first (x ∷ s) t c h = rw (h.0, strchr_first s t c h.1)

-- Behind a part without the byte, the offset moves by the part's length.
pub strchr_behind :
    (s t : List ℕ) (c i : ℕ)
    → Lacks c s
    → strchr t c ≡ some i
    → strchr (s ++ t) c ≡ some (length s + i)
unfolding strchr
strchr_behind [] t c i h e = e ∙ ap some (omega arith)
strchr_behind (x ∷ s) t c i h e = rw (h.0, strchr_behind s t c i h.1 e) (ap some (omega arith))

pub Lacks-append : (s t : List ℕ) (c : ℕ) → Lacks c s → Lacks c t → Lacks c (s ++ t)
Lacks-append [] t c h k = k
Lacks-append (x ∷ s) t c h k = (h.0, Lacks-append s t c h.1 k)

-- Digits are neither colons nor slashes.
pub digits-Lacks : (ds : List ℕ) (c : ℕ) → (c < 48) ⊎ (57 < c) → All IsDigit ds → Lacks c ds
digits-Lacks [] c k h = tt
digits-Lacks (d ∷ ds) c k h =
    let low = h.0.0 in let high = h.0.1 in (ground arith, digits-Lacks ds c k h.1)

pub strchr-none : (s : List ℕ) (c : ℕ) → Lacks c s → strchr s c ≡ none
unfolding strchr
strchr-none [] c h = refl
strchr-none (x ∷ s) c h = rw (h.0, strchr-none s c h.1)

-- The last occurrence.
pub strrchr-none : (s : List ℕ) (c : ℕ) → Lacks c s → strrchr s c ≡ none
unfolding strrchr
strrchr-none [] c h = refl
strrchr-none (x ∷ s) c h = ground (arith, strrchr-none s c h.1, h.0)

pub strrchr_last : (s t : List ℕ) (c : ℕ) → Lacks c t → strrchr (s ++ (c ∷ t)) c ≡ some (length s)
unfolding strrchr
strrchr_last [] t c h = ground (arith, strrchr-none t c h)
strrchr_last (x ∷ s) t c h = ground (arith, strrchr_last s t c h)

module _ (d : ℕ) (ds : List ℕ) (h : All IsDigit (d ∷ ds)) where
  skip_spaces-digit : skip_spaces (d ∷ ds) 0 ≡ (0, d ∷ ds)
  unfolding skip_spaces
  skip_spaces-digit = let low = h.0.0 in ground arith

  strtol_sign-digit : strtol_sign 0 (d ∷ ds) ≡ strtol_digits false 0 (d ∷ ds)
  unfolding strtol_sign
  strtol_sign-digit = ground arith

  scan_count-digits : scan_count (d ∷ ds) ≡ length (d ∷ ds)
  scan_count-digits =
      ap scan_count (sym (append-nil (d ∷ ds)))
      ∙ scan_count-append (d ∷ ds) [] h
      ∙ unfold scan_count in omega arith

  strtol_digits-digits :
      scan_value 0 (d ∷ ds) < two_63
      → strtol_digits false 0 (d ∷ ds)
        ≡ record { value = pos (scan_value 0 (d ∷ ds)); end = suc (length ds); erange = false }
  unfolding strtol_digits
  strtol_digits-digits v = ground (arith, scan_count-digits)

strtol_lem : (s : List ℕ) (p : ℕ × List ℕ) → skip_spaces s 0 ≡ p → strtol s ≡ strtol_sign p.0 p.1
unfolding strtol
strtol_lem s p e = ap (λ q. strtol_sign q.0 q.1) e

-- Digits are read as their number, up to the end of the string.
strtol-digits :
    (ds : List ℕ)
    → All IsDigit ds
    → 0 < length ds
    → scan_value 0 ds < two_63
    → strtol ds ≡ record { value = pos (scan_value 0 ds); end = length ds; erange = false }
strtol-digits [] h e v = elim e [ ]
strtol-digits (d ∷ ds) h e v =
    strtol_lem (d ∷ ds) (0, d ∷ ds) (skip_spaces-digit d ds h)
    ∙ strtol_sign-digit d ds h
    ∙ strtol_digits-digits d ds h v

-- What `%d` prints of a number, `strtol` reads back.
pub strtol-print_nat :
    (n : ℕ)
    → n < two_63
    → strtol (print_nat n) ≡ record { value = pos n; end = length (print_nat n); erange = false }
strtol-print_nat n h =
    let e : scan_value 0 (print_nat n) ≡ n =
      ap (scan_value 0) (sym (append-nil (print_nat n)))
      ∙ scan_value-print_nat n []
      ∙ unfold scan_value in refl in
    rw e at (strtol-digits (print_nat n) (print_nat-IsDigit n) (print_nat_pos n) (omega (arith, e)))

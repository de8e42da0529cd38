-- ===== src/CString.antt =====
-- The functions of the C standard library that the program applies to its strings.
--
-- A string is the list of its bytes, without the NUL that ends it; an array that holds a string is
-- modelled by the string in it. Offsets of pointers into a string are numbers.
pub mod Laws
use Prim.Native.Char.{code}
use Prim.Native.String.{String}
use web_bench.Prelude.{
  ℕ, zero, suc, ◌+◌, ◌-◌, ◌≤◌, Bool, true, false, ◌&&◌, ◌||◌, Option, none, some, List, [], ◌∷◌,
  ◌++◌, ltb, leb, ◌==◌, if◌then◌else◌, length, take, drop, Outcome, done, fault,
}
use web_bench.Prelude.Int.{ℤ, pos, negsuc, two_63}
use web_bench.Prelude.Digits.{scan_value, scan_count}

-- The bytes of a literal.
abbrev pub codes : String → List ℕ
codes String.[] = []
codes (String.◌∷◌ c s) = code c ∷ codes s

-- `strncat(dst, src, n)`.
unfoldable pub strncat : List ℕ → List ℕ → ℕ → List ℕ
strncat dst src n = dst ++ take n src

-- `strncat(dst, src, sizeof(dst) - strlen(dst) - 1)` on an array of `size` bytes.
unfoldable pub strncat_sized : ℕ → List ℕ → List ℕ → List ℕ
unfolding strncat
strncat_sized size dst src = strncat dst src (size - length dst - 1)

-- `snprintf(dst, size, "%s", src)`, for what is printed as `src`.
unfoldable pub snprintf : ℕ → List ℕ → List ℕ
snprintf size src = take (size - 1) src

-- `strncpy(dst, src, n)` on an array of `size` bytes whose bytes behind the string are all 0. No
-- NUL is written behind `n` bytes of `src`.
unfoldable pub strncpy : ℕ → List ℕ → List ℕ → ℕ → Outcome (List ℕ)
strncpy size dst src n =
    if ltb size n
    then fault
    else if leb n (length src)
    then done (take n src ++ drop n dst)
    else done src

-- Reading an array of `size` bytes as a string: without a NUL in it the read leaves the array.
unfoldable pub read_string : ℕ → List ℕ → Outcome (List ℕ)
read_string size s = if ltb (length s) size then done s else fault

-- `strchr` and `strrchr`: the offset of the first and of the last occurrence.
unfoldable pub strchr : List ℕ → ℕ → Option ℕ
strchr [] c = none
strchr (x ∷ s) c =
    if x == c then some 0 else elim (strchr s c) [ none ↦ none | some i ↦ some (suc i) ]

unfoldable pub strrchr : List ℕ → ℕ → Option ℕ
strrchr [] c = none
strrchr (x ∷ s) c = elim (strrchr s c) [
  | some i ↦ some (suc i)
  | none ↦ if x == c then some 0 else none
]

unfoldable pub starts_with : List ℕ → List ℕ → Bool
starts_with [] s = true
starts_with (p ∷ ps) [] = false
starts_with (p ∷ ps) (x ∷ s) = p == x && starts_with ps s

-- `strstr(s, needle)`.
unfoldable pub strstr : List ℕ → List ℕ → Option ℕ
unfolding starts_with
strstr [] needle = if starts_with needle [] then some 0 else none
strstr (x ∷ s) needle =
    if starts_with needle (x ∷ s)
    then some 0
    else elim (strstr s needle) [ none ↦ none | some i ↦ some (suc i) ]

abbrev pub lower : ℕ → ℕ
lower c = if leb b'A' c && leb c b'Z' then c + 32 else c

-- `strncasecmp(s, t, n) == 0`.
unfoldable pub strncasecmp : List ℕ → List ℕ → ℕ → Bool
strncasecmp s t zero = true
strncasecmp [] [] (suc n) = true
strncasecmp [] (y ∷ t) (suc n) = false
strncasecmp (x ∷ s) [] (suc n) = false
strncasecmp (x ∷ s) (y ∷ t) (suc n) = lower x == lower y && strncasecmp s t n

-- The bytes in front of the first NUL.
unfoldable pub cut_nul : List ℕ → List ℕ
cut_nul [] = []
cut_nul (x ∷ s) = if x == 0 then [] else x ∷ cut_nul s

-- `strtol(s, &end, 10)`: the value, the offset of `end` (0 if no number was read), and whether it
-- sets `errno` to ERANGE.
pub record Strtol : Type 0 where
  pub value : ℤ
  pub end : ℕ
  pub erange : Bool

abbrev is_space : ℕ → Bool
is_space c = c == 32 || leb 9 c && leb c 13

skip_spaces : List ℕ → ℕ → ℕ × List ℕ
skip_spaces [] n = (n, [])
skip_spaces (c ∷ s) n = let rest = skip_spaces s (suc n) in if is_space c then rest else (n, c ∷ s)

-- The digits behind `skipped` bytes of spaces and sign.
strtol_digits : Bool → ℕ → List ℕ → Strtol
strtol_digits negative skipped s =
    let v = scan_value 0 s in
    if scan_count s == 0 then record { value = pos 0; end = 0; erange = false } else record {
      value =
          if negative
          then (if ltb two_63 v
              then negsuc (two_63 - 1)
              else if v == 0
              then pos 0
              else negsuc (v - 1))
          else (if leb two_63 v then pos (two_63 - 1) else pos v);
      end = skipped + scan_count s;
      erange = if negative then ltb two_63 v else leb two_63 v;
    }

strtol_sign : ℕ → List ℕ → Strtol
unfolding strtol_digits
strtol_sign skipped [] = strtol_digits false skipped []
strtol_sign skipped (c ∷ s) =
    if c == b'-'
    then strtol_digits true (suc skipped) s
    else if c == b'+'
    then strtol_digits false (suc skipped) s
    else strtol_digits false skipped (c ∷ s)

unfoldable pub strtol : List ℕ → Strtol
unfolding skip_spaces strtol_sign scan_value scan_count
strtol s = let (skipped, rest) = skip_spaces s 0 in strtol_sign skipped rest

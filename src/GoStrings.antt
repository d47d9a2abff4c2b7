-- ===== src/GoStrings.antt =====
-- What src/ uses of Go's strings, bytes, strconv and fmt: trimming, searching, decimal numbers.
pub mod Decimal
pub mod Integer
pub mod Trim
use mathlib.Core.List.{reverse}
use mano_reck.Prelude.{
  ℕ, zero, suc, ◌+◌, ◌-◌, ◌*◌, ◌/◌, ◌%◌, Bool, true, false, ◌&&◌, ◌||◌, leb, ltb, ◌==◌,
  if◌then◌else◌, List, [], ◌∷◌, Text, ℤ, pos, negsuc, codes, ◌≡◌, refl,
}

abbrev ascii_space : ℕ → Bool
ascii_space c = c == 9 || c == 10 || c == 11 || c == 12 || c == 13 || c == 32

-- U+0085 and U+00A0
abbrev two_byte_space : ℕ → ℕ → Bool
two_byte_space a b = a == 0xc2 && (b == 0x85 || b == 0xa0)

-- U+1680, U+2000 to U+200A, U+2028, U+2029, U+202F, U+205F and U+3000
abbrev three_byte_space : ℕ → ℕ → ℕ → Bool
three_byte_space a b c =
    (a == 0xe1 && b == 0x9a && c == 0x80)
    || (a == 0xe2
        && b == 0x80
        && ((leb 0x80 c && leb c 0x8a) || c == 0xa8 || c == 0xa9 || c == 0xaf))
    || (a == 0xe2 && b == 0x81 && c == 0x9f)
    || (a == 0xe3 && b == 0x80 && c == 0x80)

-- The size of the white space at the front of a text, in bytes; 0 if there is none.
space_start : Text → ℕ
space_start [] = 0
space_start (a ∷ []) = if ascii_space a then 1 else 0
space_start (a ∷ b ∷ []) = if ascii_space a then 1 else if two_byte_space a b then 2 else 0
space_start (a ∷ b ∷ c ∷ r) =
    if ascii_space a
    then 1
    else if two_byte_space a b
    then 2
    else if three_byte_space a b c
    then 3
    else 0

-- The same at the end of a text that is read backwards.
space_end : Text → ℕ
space_end [] = 0
space_end (a ∷ []) = if ascii_space a then 1 else 0
space_end (b ∷ a ∷ []) = if ascii_space b then 1 else if two_byte_space a b then 2 else 0
space_end (c ∷ b ∷ a ∷ r) =
    if ascii_space c
    then 1
    else if two_byte_space b c
    then 2
    else if three_byte_space a b c
    then 3
    else 0

-- Drops the `skip` bytes left of a white-space character, then more white space.
trim_with : (Text → ℕ) → ℕ → Text → Text
trim_with size skip [] = []
trim_with size (suc skip) (c ∷ r) = trim_with size skip r
trim_with size zero (c ∷ r) = elim (size (c ∷ r)) [ zero ↦ c ∷ r | suc k ↦ trim_with size k r ]

-- strings.TrimSpace, bytes.TrimSpace
unfoldable pub trim_space : Text → Text
unfolding trim_with space_start space_end
trim_space s = reverse (trim_with space_end 0 (reverse (trim_with space_start 0 s)))

unfoldable pub has_prefix : Text → Text → Bool
has_prefix [] s = true
has_prefix (p ∷ ps) [] = false
has_prefix (p ∷ ps) (c ∷ cs) = p == c && has_prefix ps cs

-- `strings.Contains(s, part)`
unfoldable pub contains : Text → Text → Bool
unfolding has_prefix
contains [] part = has_prefix part []
contains (c ∷ cs) part = has_prefix part (c ∷ cs) || contains cs part

-- The decimal digits of `n` in front of `rest`.
unfoldable pub digits_onto : ℕ → ℕ → Text → Text
digits_onto zero n rest = rest
digits_onto (suc fuel) n rest =
    let more = digits_onto fuel (n / 10) ((b'0' + n % 10) ∷ rest) in
    if ltb n 10 then (b'0' + n) ∷ rest else more

-- `%d` and strconv.Itoa. A number has fewer digits than its value and one.
unfoldable pub itoa : ℤ → Text
unfolding digits_onto
itoa (pos n) = digits_onto (suc n) n []
itoa (negsuc n) = b'-' ∷ digits_onto (suc (suc n)) (suc n) []

-- ===== src/Config/Level.antt =====
-- What config.go uses of log/slog: Level.UnmarshalText, with strings.ToUpper.
use mano_reck.Prelude.{
  ℕ, suc, ◌+◌, ◌-◌, ◌&&◌, ◌||◌, leb, ◌==◌, if◌then◌else◌, Option, none, some, [], ◌∷◌, Text,
  text_eq, codes, ℤ, pos, negsuc, int64_of_bits, ◌%◌, ◌^◌,
}
use mano_reck.GoStrings.Integer.{atoi}

-- Outside ASCII only U+0131 and U+017F have an ASCII capital; the other bytes stay, and make no name.
unfoldable pub to_upper : Text → Text
to_upper [] = []
to_upper (a ∷ []) = (if leb b'a' a && leb a b'z' then a - 32 else a) ∷ []
to_upper (a ∷ b ∷ s) =
    let pair = to_upper s in
    let single = to_upper (b ∷ s) in
    if a == 0xc4 && b == 0xb1
    then b'I' ∷ pair
    else if a == 0xc5 && b == 0xbf
    then b'S' ∷ pair
    else (if leb b'a' a && leb a b'z' then a - 32 else a) ∷ single

-- The text before the first sign, and the text from it on.
unfoldable pub split_sign : Text → Text × Text
split_sign [] = ([], [])
split_sign (c ∷ s) =
    let (name, offset) = split_sign s in
    if c == b'+' || c == b'-' then ([], c ∷ s) else (c ∷ name, offset)

abbrev pub base_level : Text → Option ℤ
base_level name =
    if text_eq name (codes "DEBUG")
    then some (negsuc 3)
    else if text_eq name (codes "INFO")
    then some (pos 0)
    else if text_eq name (codes "WARN")
    then some (pos 4)
    else if text_eq name (codes "ERROR")
    then some (pos 8)
    else none

-- The 64-bit pattern of an int, and `l += offset`.
abbrev pub bits64 : ℤ → ℕ
bits64 (pos n) = n % 2 ^ 64
bits64 (negsuc n) = (2 ^ 64 - suc n % 2 ^ 64) % 2 ^ 64

abbrev pub add64 : ℤ → ℤ → ℤ
add64 a b = int64_of_bits ((bits64 a + bits64 b) % 2 ^ 64)

-- The level after the offset was read.
abbrev pub level_at : Text → Option ℤ → Option ℤ
level_at name none = none
level_at name (some offset) = elim (base_level name) [
  | none ↦ none
  | some l ↦ some (add64 l offset)
]

abbrev pub offset_of : Text → Option ℤ
offset_of [] = some (pos 0)
offset_of (c ∷ s) = atoi (c ∷ s)

unfoldable pub parse_level : Text → Option ℤ
unfolding to_upper split_sign
parse_level s = let (name, offset) = split_sign s in level_at (to_upper name) (offset_of offset)

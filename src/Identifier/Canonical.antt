-- ===== src/Identifier/Canonical.antt =====
-- newUUIDv7 returns canonical identifiers, or the error of its source of randomness.
use mano_reck.Prelude.{
  ℕ, zero, suc, [], ◌∷◌, All-take, ◌≤◌, ◌≡◌, refl, true, arith, length, take, All, Text, IsByte,
  ◌⊎◌, inl, inr, ◌/◌, get_or,
}
use mano_reck.Identifier.{stamp, encode, is_uuidv7}
use mano_reck.Identifier.ByteLists.{
  ForBytes, for_bytes, high_digit, low_digit, version_byte, variant_byte,
}

-- The four digits of the variant.
variant_cases : (x : ℕ) → x / 4 ≡ 2 → (x ≡ 8) ⊎ ((x ≡ 9) ⊎ ((x ≡ 10) ⊎ (x ≡ 11)))
variant_cases x h = ground arith

encode_16 : ForBytes 16 (λ value.
    get_or value 6 0 / 16 ≡ 7 → get_or value 8 0 / 16 / 4 ≡ 2 → is_uuidv7 (encode value) ≡ true)
unfolding is_uuidv7 encode
encode_16 b0 h0 b1 h1 b2 h2 b3 h3 b4 h4 b5 h5 b6 h6 b7 h7 b8 h8 b9 h9 b10 h10 b11 h11 b12 h12 b13
      h13 b14 h14 b15 h15 version variant =
    simp
      (
        high_digit b0 h0,
        low_digit b0 h0,
        high_digit b1 h1,
        low_digit b1 h1,
        high_digit b2 h2,
        low_digit b2 h2,
        high_digit b3 h3,
        low_digit b3 h3,
        high_digit b4 h4,
        low_digit b4 h4,
        high_digit b5 h5,
        low_digit b5 h5,
        high_digit b6 h6,
        low_digit b6 h6,
        high_digit b7 h7,
        low_digit b7 h7,
        high_digit b8 h8,
        low_digit b8 h8,
        high_digit b9 h9,
        low_digit b9 h9,
        high_digit b10 h10,
        low_digit b10 h10,
        high_digit b11 h11,
        low_digit b11 h11,
        high_digit b12 h12,
        low_digit b12 h12,
        high_digit b13 h13,
        low_digit b13 h13,
        high_digit b14 h14,
        low_digit b14 h14,
        high_digit b15 h15,
        low_digit b15 h15,
      )
      (rw version (elim (variant_cases (b8 / 16) variant) [
        | inl e ↦ rw e refl
        | inr (inl e) ↦ rw e refl
        | inr (inr (inl e)) ↦ rw e refl
        | inr (inr (inr e)) ↦ rw e refl
      ]))

-- Sixteen bytes that carry version 7 and the RFC variant.
abbrev pub IsVersion7 : Text → Type 0
IsVersion7 v =
    All IsByte v × (length v ≡ 16) × (get_or v 6 0 / 16 ≡ 7) × (get_or v 8 0 / 16 / 4 ≡ 2)

stamp_16 : (t : ℕ) → ForBytes 16 (λ value. IsVersion7 (stamp t value))
unfolding stamp
stamp_16 t b0 h0 b1 h1 b2 h2 b3 h3 b4 h4 b5 h5 b6 h6 b7 h7 b8 h8 b9 h9 b10 h10 b11 h11 b12 h12 b13
      h13 b14 h14 b15 h15 =
    rw (version_byte b6 h6, variant_byte b8 h8) (omega arith)

-- What newUUIDv7 writes over sixteen bytes is a value of version 7.
pub stamp-IsVersion7 :
    (t : ℕ) (value : Text) → length value ≡ 16 → All IsByte value → IsVersion7 (stamp t value)
stamp-IsVersion7 t value size bytes =
    for_bytes 16 (λ v. IsVersion7 (stamp t v)) (stamp_16 t) value size bytes

abbrev EncodesCanonical : Text → Type 0
EncodesCanonical v = get_or v 6 0 / 16 ≡ 7 → get_or v 8 0 / 16 / 4 ≡ 2 → is_uuidv7 (encode v) ≡ true

pub encode-IsUuidv7 : (v : Text) → IsVersion7 v → is_uuidv7 (encode v) ≡ true
encode-IsUuidv7 v h = for_bytes 16 EncodesCanonical encode_16 v h.1 h.0 h.2 h.3

pub length-take_enough : (n : ℕ) (xs : Text) → n ≤ length xs → length (take n xs) ≡ n
length-take_enough zero xs h = refl
length-take_enough (suc n) [] h = absurd (omega arith)
length-take_enough (suc n) (x ∷ xs) h = omega (arith, length-take_enough n xs)

-- The value that newUUIDv7 encodes.
pub fresh_value-IsVersion7 :
    (t : ℕ) (random : Text)
    → 16 ≤ length random
    → All IsByte random
    → IsVersion7 (stamp t (take 16 random))
fresh_value-IsVersion7 t random enough bytes =
    stamp-IsVersion7 t (take 16 random) (length-take_enough 16 random enough)
      (All-take IsByte 16 random bytes)

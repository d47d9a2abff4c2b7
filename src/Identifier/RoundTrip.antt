-- ===== src/Identifier/RoundTrip.antt =====
-- The text of an identifier gives back the sixteen bytes that it encodes.
use Prim.Native.Nat.{bit_and}
use mano_reck.Prelude.{
  ℕ, ◌+◌, ◌-◌, ◌*◌, ◌/◌, ◌%◌, ◌^◌, ◌≡◌, refl, [], ◌∷◌, ◌++◌, arith, leb, ==_iff, ◌==◌, ◌<◌,
  if◌then◌else◌, length, get_or, take, drop, Text, IsByte, true, All,
}
use mano_reck.Identifier.{hextable, stamp, encode}
use mano_reck.Identifier.ByteLists.{
  ForBytes, for_bytes, low_nibble, version_byte, variant_byte, tabulated, tabulated_at,
}

-- The value of a hexadecimal digit.
hex_value : ℕ → ℕ
hex_value c = if leb c b'9' then c - b'0' else c - b'a' + 10

hex_decode : Text → Text
hex_decode (x ∷ y ∷ r) = (hex_value x * 16 + hex_value y) ∷ hex_decode r
hex_decode _ = []

-- The bytes of an identifier, read from its five groups of digits.
unfoldable pub decode : Text → Text
unfolding hex_decode hex_value
decode s =
    hex_decode (take 8 s)
    ++ (hex_decode (take 4 (drop 9 s))
        ++ (hex_decode (take 4 (drop 14 s))
            ++ (hex_decode (take 4 (drop 19 s)) ++ hex_decode (take 12 (drop 24 s)))))

-- The 48-bit big-endian number in front.
unfoldable pub timestamp_of : Text → ℕ
timestamp_of v =
    get_or v 0 0 * 2 ^ 40
    + get_or v 1 0 * 2 ^ 32
    + get_or v 2 0 * 2 ^ 24
    + get_or v 3 0 * 2 ^ 16
    + get_or v 4 0 * 2 ^ 8
    + get_or v 5 0

digit_table : tabulated (λ x. hex_value (get_or hextable x 0) == x) 16 ≡ true
unfolding tabulated hex_value
digit_table = refl

hex_value-digit : (x : ℕ) → x < 16 → hex_value (get_or hextable x 0) ≡ x
hex_value-digit x h = (==_iff _ _).0 (tabulated_at _ _ digit_table _ h)

byte_again :
    (b : ℕ)
    → IsByte b
    → hex_value (get_or hextable (b / 16) 0) * 16 + hex_value (get_or hextable (bit_and b 0x0f) 0)
      ≡ b
byte_again b h =
    rw
      (
        low_nibble b h,
        hex_value-digit (b / 16) (omega arith),
        hex_value-digit (b % 16) (omega arith),
      )
      (omega arith)

decode-encode_16 : ForBytes 16 (λ v. decode (encode v) ≡ v)
unfolding decode encode
decode-encode_16 b0 h0 b1 h1 b2 h2 b3 h3 b4 h4 b5 h5 b6 h6 b7 h7 b8 h8 b9 h9 b10 h10 b11 h11 b12 h12
      b13 h13 b14 h14 b15 h15 =
    simp (
      byte_again b0 h0,
      byte_again b1 h1,
      byte_again b2 h2,
      byte_again b3 h3,
      byte_again b4 h4,
      byte_again b5 h5,
      byte_again b6 h6,
      byte_again b7 h7,
      byte_again b8 h8,
      byte_again b9 h9,
      byte_again b10 h10,
      byte_again b11 h11,
      byte_again b12 h12,
      byte_again b13 h13,
      byte_again b14 h14,
      byte_again b15 h15,
    )

-- Decoding is a left inverse of encoding on sixteen bytes.
pub decode-encode : (v : Text) → length v ≡ 16 → All IsByte v → decode (encode v) ≡ v
decode-encode v size bytes = for_bytes 16 (λ w. decode (encode w) ≡ w) decode-encode_16 v size bytes

timestamp_16 : (t : ℕ) → ForBytes 16 (λ v. timestamp_of (stamp t v) ≡ t % 2 ^ 48)
unfolding timestamp_of stamp
timestamp_16 t b0 h0 b1 h1 b2 h2 b3 h3 b4 h4 b5 h5 b6 h6 b7 h7 b8 h8 b9 h9 b10 h10 b11 h11 b12 h12
      b13 h13 b14 h14 b15 h15 =
    omega arith

pub timestamp_of-stamp :
    (t : ℕ) (v : Text) → length v ≡ 16 → All IsByte v → timestamp_of (stamp t v) ≡ t % 2 ^ 48
timestamp_of-stamp t v size bytes =
    for_bytes 16 (λ w. timestamp_of (stamp t w) ≡ t % 2 ^ 48) (timestamp_16 t) v size bytes

-- The random part: the low nibble of byte 6, byte 7, the low six bits of byte 8, and the rest.
abbrev pub random_part : Text → Text
random_part v = (get_or v 6 0 % 16) ∷ get_or v 7 0 ∷ (get_or v 8 0 % 64) ∷ drop 9 v

nibble_again : (x : ℕ) → (112 + x % 16) % 16 ≡ x % 16
nibble_again x = omega arith

six_bits_again : (x : ℕ) → (128 + x % 64) % 64 ≡ x % 64
six_bits_again x = omega arith

random_16 : (t : ℕ) → ForBytes 16 (λ v. random_part (stamp t v) ≡ random_part v)
unfolding stamp
random_16 t b0 h0 b1 h1 b2 h2 b3 h3 b4 h4 b5 h5 b6 h6 b7 h7 b8 h8 b9 h9 b10 h10 b11 h11 b12 h12 b13
      h13 b14 h14 b15 h15 =
    rw (version_byte b6 h6, variant_byte b8 h8) (cc (nibble_again b6, six_bits_again b8))

pub random_part-stamp :
    (t : ℕ) (v : Text) → length v ≡ 16 → All IsByte v → random_part (stamp t v) ≡ random_part v
random_part-stamp t v size bytes =
    for_bytes 16 (λ w. random_part (stamp t w) ≡ random_part w) (random_16 t) v size bytes

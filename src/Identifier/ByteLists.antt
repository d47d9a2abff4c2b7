-- ===== src/Identifier/ByteLists.antt =====
-- Proofs about a fixed number of bytes, one variable for each; tables over the byte values.
use Prim.Native.Nat.{bit_and, bit_or}
use mano_reck.Prelude.{
  ℕ, zero, suc, ◌+◌, ◌/◌, ◌%◌, ◌<◌, ◌≡◌, refl, Bool, true, ◌&&◌, &&_parts, [], ◌∷◌, arith, ◌==◌,
  ==_iff, length, get_or, All, Text, IsByte,
}
use mano_reck.Identifier.{is_lower_hex, hextable}

-- `P` holds of every list of `n` bytes, stated with one binder for each byte.
abbrev pub ForBytes {ℓ} : ℕ → (Text → Type ℓ) → Type ℓ
ForBytes zero P = P []
ForBytes (suc n) P = (b : ℕ) → IsByte b → ForBytes n (λ bs. P (b ∷ bs))

pub for_bytes {ℓ} :
    (n : ℕ) (P : Text → Type ℓ) → ForBytes n P → (bs : Text) → length bs ≡ n → All IsByte bs → P bs
for_bytes zero P f [] e h = f
for_bytes zero P f (b ∷ bs) e h = absurd (omega arith)
for_bytes (suc n) P f [] e h = absurd (omega arith)
for_bytes (suc n) P f (b ∷ bs) e h = for_bytes n (λ cs. P (b ∷ cs)) (f b h.0) bs (omega arith) h.1

-- `test` succeeds at every number below `bound`.
unfoldable pub tabulated : (ℕ → Bool) → ℕ → Bool
tabulated test zero = true
tabulated test (suc bound) = tabulated test bound && test bound

pub tabulated_at :
    (test : ℕ → Bool) (bound : ℕ)
    → tabulated test bound ≡ true
    → (b : ℕ) → b < bound
    → test b ≡ true
unfolding tabulated
tabulated_at test zero table b below = absurd (omega arith)
tabulated_at test (suc bound) table b below =
    let (smaller, last) = &&_parts (tabulated test bound) (test bound) table in
    ground (arith, tabulated_at test bound smaller b)

low_table : tabulated (λ x. bit_and x 0x0f == x % 16) 256 ≡ true
unfolding tabulated
low_table = refl

pub low_nibble : (b : ℕ) → IsByte b → bit_and b 0x0f ≡ b % 16
low_nibble b h = (==_iff _ _).0 (tabulated_at _ _ low_table _ h)

version_table : tabulated (λ x. bit_or (bit_and x 0x0f) 0x70 == 112 + x % 16) 256 ≡ true
unfolding tabulated
version_table = refl

pub version_byte : (b : ℕ) → IsByte b → bit_or (bit_and b 0x0f) 0x70 ≡ 112 + b % 16
version_byte b h = (==_iff _ _).0 (tabulated_at _ _ version_table _ h)

variant_table : tabulated (λ x. bit_or (bit_and x 0x3f) 0x80 == 128 + x % 64) 256 ≡ true
unfolding tabulated
variant_table = refl

pub variant_byte : (b : ℕ) → IsByte b → bit_or (bit_and b 0x3f) 0x80 ≡ 128 + b % 64
variant_byte b h = (==_iff _ _).0 (tabulated_at _ _ variant_table _ h)

hex_table : tabulated (λ x. is_lower_hex (get_or hextable x 0)) 16 ≡ true
unfolding tabulated is_lower_hex
hex_table = refl

-- Every digit of the table is a character that the canonical form admits.
pub hex_digit : (x : ℕ) → x < 16 → is_lower_hex (get_or hextable x 0) ≡ true
hex_digit x h = tabulated_at _ _ hex_table _ h

pub high_digit : (b : ℕ) → IsByte b → is_lower_hex (get_or hextable (b / 16) 0) ≡ true
high_digit b h = hex_digit (b / 16) (omega arith)

pub low_digit : (b : ℕ) → IsByte b → is_lower_hex (get_or hextable (bit_and b 0x0f) 0) ≡ true
low_digit b h = rw (low_nibble b h) (hex_digit (b % 16) (omega arith))

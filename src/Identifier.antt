-- ===== src/Identifier.antt =====
-- backend/internal/platform/identifier/uuidv7.go: UUIDv7 creation and the canonical-form test.
pub mod ByteLists
pub mod Canonical
pub mod RoundTrip
pub mod Fresh
use Prim.Native.Nat.{bit_and, bit_or}
use mano_reck.Prelude.{
  ℕ, suc, ◌-◌, ◌/◌, ◌%◌, ◌^◌, Bool, true, false, not, ◌&&◌, ◌||◌, [], ◌∷◌, ◌++◌, leb, ◌==◌,
  if◌then◌else◌, length, get_or, set, take, drop, Text, codes, ℤ, pos, negsuc,
}
use mano_reck.GoError.{Error, Sentinel, sentinel, is_eof, Result, ok, err, ◌>>=◌}

-- An io.Reader: the bytes that it delivers before it fails, and the error that it then returns.
pub record Reader : Type 0 where
  pub bytes : Text
  pub failure : Error

-- io.ReadFull(reader, buffer of n bytes): the end of the input after some of the bytes is unexpected.
unfoldable pub read_full : ℕ → Reader → Result Text
read_full n r =
    if leb n (length r.bytes)
    then ok (take n r.bytes)
    else if not (length r.bytes == 0) && is_eof r.failure
    then err (sentinel Sentinel.unexpected_eof)
    else err r.failure

-- The conversion uint64(x) of an int64.
unfoldable pub uint64 : ℤ → ℕ
uint64 (pos n) = n % 2 ^ 64
uint64 (negsuc n) = 2 ^ 64 - 1 - n % 2 ^ 64

abbrev pub hextable : Text
hextable = codes "0123456789abcdef"

-- hex.Encode: two digits for each byte.
unfoldable pub hex_encode : Text → Text
hex_encode [] = []
hex_encode (v ∷ vs) =
    get_or hextable (v / 16) 0 ∷ get_or hextable (bit_and v 0x0f) 0 ∷ hex_encode vs

-- The six bytes of the timestamp, then the version and the variant, written over the random bytes.
unfoldable pub stamp : ℕ → Text → Text
stamp timestamp value =
    let v0 = set value 0 (timestamp / 2 ^ 40 % 256) in
    let v1 = set v0 1 (timestamp / 2 ^ 32 % 256) in
    let v2 = set v1 2 (timestamp / 2 ^ 24 % 256) in
    let v3 = set v2 3 (timestamp / 2 ^ 16 % 256) in
    let v4 = set v3 4 (timestamp / 2 ^ 8 % 256) in
    let v5 = set v4 5 (timestamp % 256) in
    let v6 = set v5 6 (bit_or (bit_and (get_or v5 6 0) 0x0f) 0x70) in
    set v6 8 (bit_or (bit_and (get_or v6 8 0) 0x3f) 0x80)

-- The 36 characters: `value[from:to]` in hexadecimal, joined by hyphens.
unfoldable pub encode : Text → Text
unfolding hex_encode
encode value =
    hex_encode (take 4 value)
    ++ (b'-'
        ∷ (hex_encode (take 2 (drop 4 value))
            ++ (b'-'
                ∷ (hex_encode (take 2 (drop 6 value))
                    ++ (b'-'
                        ∷ (hex_encode (take 2 (drop 8 value))
                            ++ (b'-' ∷ hex_encode (take 6 (drop 10 value)))))))))

-- `newUUIDv7(now, randomness)`, with `now.UnixMilli()` in place of `now`.
unfoldable pub new_uuidv7 : ℤ → Reader → Result Text
unfolding read_full uint64 stamp encode
new_uuidv7 unix_milli randomness = do
  value ← read_full 16 randomness
  ok (encode (stamp (uint64 unix_milli) value))

abbrev pub is_hyphen_place : ℕ → Bool
is_hyphen_place index = index == 8 || index == 13 || index == 18 || index == 23

unfoldable pub is_lower_hex : ℕ → Bool
is_lower_hex c = (leb b'0' c && leb c b'9') || (leb b'a' c && leb c b'f')

-- The loop over the characters from `index` on.
unfoldable pub all_hex_from : ℕ → Text → Bool
all_hex_from index [] = true
all_hex_from index (c ∷ cs) =
    let rest = all_hex_from (suc index) cs in
    if is_hyphen_place index then rest else if is_lower_hex c then rest else false

unfoldable pub is_uuidv7 : Text → Bool
unfolding all_hex_from
is_uuidv7 value =
    if not (length value == 36)
      || not (get_or value 8 0 == b'-')
      || not (get_or value 13 0 == b'-')
      || not (get_or value 18 0 == b'-')
      || not (get_or value 23 0 == b'-')
    then false
    else if not (get_or value 14 0 == b'7')
        || (not (get_or value 19 0 == b'8')
            && not (get_or value 19 0 == b'9')
            && not (get_or value 19 0 == b'a')
            && not (get_or value 19 0 == b'b'))
    then false
    else all_hex_from 0 value

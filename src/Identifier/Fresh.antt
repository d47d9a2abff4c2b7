-- ===== src/Identifier/Fresh.antt =====
-- newUUIDv7 as a whole: what it returns on each branch.
use mano_reck.Prelude.{
  ◌%◌, ◌^◌, ◌≤◌, ◌≡◌, true, le→leb, length, take, All, All-take, Text, IsByte, ℤ,
}
use mano_reck.GoError.{ok}
use mano_reck.Identifier.{Reader, uint64, stamp, encode, new_uuidv7, is_uuidv7}
use mano_reck.Identifier.Canonical.{length-take_enough, fresh_value-IsVersion7, encode-IsUuidv7}
use mano_reck.Identifier.RoundTrip.{
  decode, timestamp_of, random_part, decode-encode, timestamp_of-stamp, random_part-stamp,
}

-- When the reader delivers at least sixteen bytes, newUUIDv7 returns an identifier that IsUUIDv7
-- accepts, that holds the low 48 bits of the millisecond clock in front, and that keeps the 74 random
-- bits as the reader delivered them.
pub new_uuidv7-IsCanonical :
    (unix_milli : ℤ) (randomness : Reader)
    → 16 ≤ length randomness.bytes
    → All IsByte randomness.bytes
    → (id : Text) × (new_uuidv7 unix_milli randomness ≡ ok id)
      × (is_uuidv7 id ≡ true)
      × (timestamp_of (decode id) ≡ uint64 unix_milli % 2 ^ 48)
      × (random_part (decode id) ≡ random_part (take 16 randomness.bytes))
unfolding new_uuidv7
new_uuidv7-IsCanonical unix_milli randomness enough bytes =
    let t = uint64 unix_milli in
    let random = take 16 randomness.bytes in
    let size = length-take_enough 16 randomness.bytes enough in
    let each = All-take IsByte 16 randomness.bytes bytes in
    let fresh = fresh_value-IsVersion7 t randomness.bytes enough bytes in
    let again = decode-encode (stamp t random) fresh.1 fresh.0 in
    (
      encode (stamp t random),
      rw (le→leb _ _ enough),
      encode-IsUuidv7 (stamp t random) fresh,
      rw again (timestamp_of-stamp t random size each),
      rw again (random_part-stamp t random size each),
    )

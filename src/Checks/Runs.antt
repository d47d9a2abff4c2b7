-- ===== src/Checks/Runs.antt =====
-- Runs of the models on concrete inputs, and the facts that the examples use.
use mano_reck.Prelude.{text_eq, ◌≡◌, refl, true, false, none, [], ◌∷◌, codes, pos}
use mano_reck.Identifier.{is_uuidv7, is_lower_hex}
use mano_reck.Regex.{match_string}
use mano_reck.GoStrings.{trim_space, itoa}
use mano_reck.Json.{valid}
use mano_reck.Event.{validate, subject, is_json_object, subject_text}
use mano_reck.Outbox.Row.{has_id}
use mano_reck.Outbox.Repository.{new_row}
use mano_reck.Event.Validate.{IsWellFormed, validate_iff}
use mano_reck.GoError.{ok, Sentinel, errors_is, errorf, sentinel, joined, cons, nil}
use mano_reck.Outbox.Schema.{row_checks, identity_checks, fits_integer}
use mano_reck.Outbox.Transitions.{IsConsistent}
use mano_reck.Checks.Fixtures.{codec, envelope, leased_row, published_row}

pub envelope-valid : validate envelope ≡ none
unfolding validate is_uuidv7 is_lower_hex match_string is_json_object trim_space valid
envelope-valid = refl

pub envelope-IsWellFormed : IsWellFormed envelope
envelope-IsWellFormed = (validate_iff envelope).0 envelope-valid

pub envelope-subject : subject envelope ≡ ok (codes "manoreck.events.platform.probe.v1")
unfolding subject validate is_uuidv7 is_lower_hex match_string is_json_object trim_space valid itoa
envelope-subject = refl

pub leased-IsConsistent : IsConsistent codec.operators (leased_row ∷ [])
unfolding row_checks identity_checks fits_integer new_row match_string subject_text itoa has_id
    text_eq
leased-IsConsistent = ((refl, tt), (refl, tt))

pub published-IsConsistent : IsConsistent codec.operators (published_row ∷ [])
unfolding row_checks identity_checks fits_integer new_row match_string subject_text itoa has_id
    text_eq
published-IsConsistent = ((refl, tt), (refl, tt))

joined_canceled :
    errors_is
      (joined (cons (errorf "x" []) (cons (sentinel Sentinel.canceled) nil)))
      Sentinel.canceled
    ≡ true
unfolding errors_is
joined_canceled = refl

trim_ends :
    trim_space (0xc2 ∷ 0xa0 ∷ 32 ∷ b'a' ∷ 32 ∷ b'b' ∷ 0xe2 ∷ 0x80 ∷ 0x83 ∷ 10 ∷ []) ≡ codes "a b"
unfolding trim_space
trim_ends = refl

itoa_digits : itoa (pos 1024) ≡ codes "1024"
unfolding itoa
itoa_digits = refl

valid_object : valid (codes "{} ") ≡ true
unfolding valid
valid_object = refl

valid_nested : valid (34 ∷ b'a' ∷ 92 ∷ b'u' ∷ b'0' ∷ b'0' ∷ b'e' ∷ b'9' ∷ 34 ∷ []) ≡ true
unfolding valid
valid_nested = refl

valid_array : valid (codes "[1, -0.5e+3, [true, null], {}]") ≡ true
unfolding valid
valid_array = refl

invalid_comma : valid (codes "[1,]") ≡ false
unfolding valid
invalid_comma = refl

invalid_number : valid (codes "01") ≡ false
unfolding valid
invalid_number = refl

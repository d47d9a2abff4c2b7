-- ===== src/Httpserver/Identified.antt =====
-- Every request is handled under two canonical identifiers.
use mano_reck.Prelude.{
  ◌≤◌, ◌≡◌, refl, true, false, inl, inr, Bool-cases, All, IsByte, Text, text_eq, ℤ, length, arith,
}
use mano_reck.Identifier.{Reader, is_uuidv7, new_uuidv7}
use mano_reck.Identifier.Fresh.{new_uuidv7-IsCanonical}
use mano_reck.Requestcontext.{request_id, correlation_id, with_identifiers}
use mano_reck.Httpserver.{
  Exchange, request_header, correlation_header, identified, request_identifiers,
}

-- What a handler finds in `y`, for a request that came as `x`.
pub record IsIdentified (x y : Exchange) : Type 0 where
  pub request : is_uuidv7 (request_id y.context) ≡ true
  pub correlation : is_uuidv7 (correlation_id y.context) ≡ true
  pub request_answer : y.response_header request_header ≡ request_id y.context
  pub correlation_answer : y.response_header correlation_header ≡ correlation_id y.context
  pub request_kept :
      is_uuidv7 (x.header request_header) ≡ true → request_id y.context ≡ x.header request_header
  pub correlation_kept :
      is_uuidv7 (x.header correlation_header) ≡ true
      → correlation_id y.context ≡ x.header correlation_header
  pub correlation_default :
      is_uuidv7 (x.header correlation_header) ≡ false
      → correlation_id y.context ≡ request_id y.context

identified-IsIdentified :
    (id : Text) (x : Exchange)
    → is_uuidv7 id ≡ true
    → (is_uuidv7 (x.header request_header) ≡ true → id ≡ x.header request_header)
    → IsIdentified x (identified id x)
unfolding identified request_id correlation_id with_identifiers text_eq
identified-IsIdentified id x canonical kept =
    elim (Bool-cases (is_uuidv7 (x.header correlation_header))) [
      | inl t ↦ record {
        request = canonical;
        correlation = rw t t;
        request_answer = refl;
        correlation_answer = refl;
        request_kept = kept;
        correlation_kept = λ _. rw t refl;
        correlation_default = λ f. absurd (ground arith);
      }
      | inr f ↦ record {
        request = canonical;
        correlation = rw f canonical;
        request_answer = refl;
        correlation_answer = refl;
        request_kept = kept;
        correlation_kept = λ t. absurd (ground arith);
        correlation_default = λ _. rw f refl;
      }
    ]

-- When the random reader delivers sixteen bytes, the handlers run, under two canonical identifiers: the
-- same in the context and in the response, those of the request where it has canonical ones, and the
-- request's own identifier in place of a correlation that is missing or malformed.
pub request_identifiers-IsIdentified :
    (unix_milli : ℤ) (randomness : Reader) (next : Exchange → Exchange) (x : Exchange)
    → 16 ≤ length randomness.bytes
    → All IsByte randomness.bytes
    → (y : Exchange) × (request_identifiers (new_uuidv7 unix_milli randomness) next x ≡ next y)
      × IsIdentified x y
unfolding request_identifiers
request_identifiers-IsIdentified unix_milli randomness next x enough bytes =
    let (id, made, canonical, _, _) = new_uuidv7-IsCanonical unix_milli randomness enough bytes in
    let sent = x.header request_header in
    elim (Bool-cases (is_uuidv7 sent)) [
      | inl t ↦ (
        identified sent x,
        rw (request_identifiers, t) refl,
        identified-IsIdentified sent x t (λ _. refl),
      )
      | inr f ↦ (
        identified id x,
        rw (request_identifiers, f, made) refl,
        identified-IsIdentified id x canonical (λ t. absurd (ground arith)),
      )
    ]

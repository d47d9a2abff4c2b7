-- ===== src/Event/Validate.antt =====
-- Validate accepts exactly the well-formed envelopes.
use mano_reck.Prelude.{
  ℕ, ◌<◌, ◌≡◌, ◌≢◌, ◌↔◌, refl, true, false, arith, Option, none, some, Option-cases, List, [], ◌∷◌,
  Text, ℤ, pos, negsuc, ltb_ℤ, codes, Bool-cases, inl, inr,
}
use mano_reck.Identifier.{is_uuidv7}
use mano_reck.Regex.Language.{Matches}
use mano_reck.Regex.Decides.{match_string_iff}
use mano_reck.Event.{
  Envelope, event_type_pattern, aggregate_type_pattern, is_json_object, identifiers,
  check_identifiers, check_rest, validate,
}

-- The contract of an envelope, field by field.
pub record IsWellFormed (e : Envelope) : Type 0 where
  pub id : is_uuidv7 e.id ≡ true
  pub aggregate_id : is_uuidv7 e.aggregate.id ≡ true
  pub correlation_id : is_uuidv7 e.correlation_id ≡ true
  pub causation_id : is_uuidv7 e.causation_id ≡ true
  pub tenant_id : (t : Text) → e.tenant_id ≡ some t → is_uuidv7 t ≡ true
  pub type : Matches event_type_pattern e.type
  pub version : (n : ℕ) × (e.version ≡ pos n) × (0 < n)
  pub occurred_at : e.occurred_at ≢ 0
  pub aggregate_type : Matches aggregate_type_pattern e.aggregate.type
  pub body : is_json_object e.body ≡ true

AllUuidv7 : List (Text × Text) → Type 0
AllUuidv7 [] = Unit
AllUuidv7 ((name, value) ∷ fields) = (is_uuidv7 value ≡ true) × AllUuidv7 fields

check_identifiers_sound :
    (fields : List (Text × Text)) → check_identifiers fields ≡ none → AllUuidv7 fields
unfolding check_identifiers AllUuidv7
check_identifiers_sound [] h = tt
check_identifiers_sound ((name, value) ∷ fields) h = elim (Bool-cases (is_uuidv7 value)) [
  | inl good ↦ (good, check_identifiers_sound fields (rw good at h))
  | inr bad ↦ cc (rw bad at h)
]

check_identifiers_complete :
    (fields : List (Text × Text)) → AllUuidv7 fields → check_identifiers fields ≡ none
unfolding check_identifiers AllUuidv7
check_identifiers_complete [] h = refl
check_identifiers_complete ((name, value) ∷ fields) h =
    rw (h.0) (check_identifiers_complete fields h.1)

validate_parts :
    (e : Envelope)
    → validate e ≡ none
    → (check_identifiers (identifiers e) ≡ none) × (check_rest e ≡ none)
unfolding validate
validate_parts e h = elim (Option-cases (check_identifiers (identifiers e))) [
  | inl p ↦ (p, rw (p, validate) at h)
  | inr (x, p) ↦ cc (rw (p, validate) at h)
]

tenant_part :
    (o : Option Text)
    → AllUuidv7 (elim o [ none ↦ [] | some tenant ↦ (codes "tenant_id", tenant) ∷ [] ])
    → (t : Text) → o ≡ some t
    → is_uuidv7 t ≡ true
unfolding AllUuidv7
tenant_part none h t e = cc
tenant_part (some u) h t e = let same : t ≡ u = cc in rw same h.0

tenant_whole :
    (o : Option Text)
    → ((t : Text) → o ≡ some t → is_uuidv7 t ≡ true)
    → AllUuidv7 (elim o [ none ↦ [] | some tenant ↦ (codes "tenant_id", tenant) ∷ [] ])
unfolding AllUuidv7
tenant_whole none h = tt
tenant_whole (some u) h = (h u refl, tt)

positive_version : (v : ℤ) → ltb_ℤ v (pos 1) ≡ false → (n : ℕ) × (v ≡ pos n) × (0 < n)
positive_version (pos n) h = (n, refl, ground arith)
positive_version (negsuc n) h = absurd (ground arith)

pub validate_sound : (e : Envelope) → validate e ≡ none → IsWellFormed e
unfolding check_rest AllUuidv7
validate_sound e h =
    let (p, q) = validate_parts e h in
    let ids = check_identifiers_sound (identifiers e) p in
    record {
      id = ids.0;
      aggregate_id = ids.1.0;
      correlation_id = ids.1.1.0;
      causation_id = ids.1.1.1.0;
      tenant_id = tenant_part e.tenant_id ids.1.1.1.1;
      type = (match_string_iff event_type_pattern e.type).0 (ground arith);
      version = positive_version e.version (ground arith);
      occurred_at = ground arith;
      aggregate_type = (match_string_iff aggregate_type_pattern e.aggregate.type).0 (ground arith);
      body = ground arith;
    }

pub validate_complete : (e : Envelope) → IsWellFormed e → validate e ≡ none
unfolding validate check_rest AllUuidv7
validate_complete e h =
    let fields = check_identifiers_complete (identifiers e) (
      h.id,
      (h.aggregate_id, (h.correlation_id, (h.causation_id, tenant_whole e.tenant_id h.tenant_id))),
    ) in
    let type = (match_string_iff event_type_pattern e.type).1 h.type in
    let aggregate_type =
      (match_string_iff aggregate_type_pattern e.aggregate.type).1 h.aggregate_type in
    let (n, same, positive) = h.version in
    rw (fields, validate) (ground (arith, h.occurred_at, h.body))

-- Validate returns nil exactly on the well-formed envelopes: every identifier present is a canonical
-- UUIDv7, the two names match their patterns, the version is positive, the time is set, and the data
-- is a JSON object.
pub validate_iff : (e : Envelope) → (validate e ≡ none) ↔ IsWellFormed e
validate_iff e = (validate_sound e, validate_complete e)

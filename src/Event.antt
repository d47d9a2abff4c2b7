-- ===== src/Event.antt =====
-- backend/internal/platform/event/envelope.go: the integration-event envelope and its subject.
pub mod Validate
pub mod Subject
use mano_reck.Prelude.{
  ℕ, ◌-◌, Bool, true, false, not, ◌&&◌, ◌||◌, leb, ltb, ◌==◌, if◌then◌else◌, Option, none, some,
  List, [], ◌∷◌, ◌++◌, Text, codes, length, get_or, ℤ, pos, ltb_ℤ,
}
use mano_reck.GoError.{Error, errorf, Result, ok, err}
use mano_reck.GoStrings.{trim_space, itoa}
use mano_reck.Identifier.{is_uuidv7}
use mano_reck.Json
use mano_reck.Regex.{Regex, cls, seq, star, plus, char, match_string}

abbrev pub lower : Regex
lower = cls ((b'a', b'z') ∷ [])

abbrev pub lower_digit_underscore : Regex
lower_digit_underscore = cls ((b'a', b'z') ∷ (b'0', b'9') ∷ (b'_', b'_') ∷ [])

-- ^[a-z][a-z0-9_]*$
abbrev pub aggregate_type_pattern : Regex
aggregate_type_pattern = seq lower (star lower_digit_underscore)

-- ^[a-z][a-z0-9_]*(\.[a-z][a-z0-9_]*)+$
abbrev pub event_type_pattern : Regex
event_type_pattern = seq lower (
    seq (star lower_digit_underscore)
      (plus (seq (char b'.') (seq lower (star lower_digit_underscore)))))

pub record Aggregate : Type 0 where
  pub type : Text
  pub id : Text

-- An instant is its count of nanoseconds after Go's zero time; `body` is the field Data.
pub record Envelope : Type 0 where
  pub id : Text
  pub type : Text
  pub version : ℤ
  pub occurred_at : ℕ
  pub tenant_id : Option Text
  pub aggregate : Aggregate
  pub correlation_id : Text
  pub causation_id : Text
  pub body : Text

-- A valid text that begins with a brace is an object, which the decoder into a map accepts.
unfoldable pub is_json_object : Text → Bool
is_json_object body =
    let trimmed = trim_space body in
    if ltb (length trimmed) 2
      || not (get_or trimmed 0 0 == b'{')
      || not (get_or trimmed (length trimmed - 1) 0 == b'}')
    then false
    else Json.valid trimmed

abbrev pub identifiers : Envelope → List (Text × Text)
identifiers e =
    (codes "id", e.id)
    ∷ (codes "aggregate.id", e.aggregate.id)
    ∷ (codes "correlation_id", e.correlation_id)
    ∷ (codes "causation_id", e.causation_id)
    ∷ elim e.tenant_id [ none ↦ [] | some tenant ↦ (codes "tenant_id", tenant) ∷ [] ]

-- The loop over the identifier fields: the first that is no UUIDv7.
unfoldable pub check_identifiers : List (Text × Text) → Option Error
check_identifiers [] = none
check_identifiers ((name, value) ∷ fields) =
    let rest = check_identifiers fields in
    if is_uuidv7 value
    then rest
    else some (errorf "event %s must be a canonical UUIDv7" (name ∷ []))

-- The tests of Validate after its loop.
unfoldable pub check_rest : Envelope → Option Error
check_rest e =
    if not (match_string event_type_pattern e.type)
    then some (errorf "event type must contain at least two lowercase dot-separated segments" [])
    else if ltb_ℤ e.version (pos 1)
    then some (errorf "event version must be positive" [])
    else if e.occurred_at == 0
    then some (errorf "event occurred_at must not be zero" [])
    else if not (match_string aggregate_type_pattern e.aggregate.type)
    then some (errorf "event aggregate type must be lowercase snake case" [])
    else if not (is_json_object e.body)
    then some (errorf "event data must be a JSON object" [])
    else none

unfoldable pub validate : Envelope → Option Error
unfolding check_identifiers check_rest
validate e = elim (check_identifiers (identifiers e)) [ some x ↦ some x | none ↦ check_rest e ]

unfoldable pub subject_text : Text → ℤ → Text
subject_text type version = codes "manoreck.events." ++ (type ++ (codes ".v" ++ itoa version))

unfoldable pub subject : Envelope → Result Text
unfolding subject_text
subject e = elim (validate e) [ some x ↦ err x | none ↦ ok (subject_text e.type e.version) ]

-- ===== src/Outbox/Schema.antt =====
-- The constraints that PostgreSQL holds of platform.outbox_events.
use mano_reck.Prelude.{
  ℕ, Bool, true, false, ◌&&◌, ltb_ℤ, leb_ℤ, Option, none, some, List, [], ◌∷◌, Text, text_eq, codes,
  ℤ, pos, negsuc,
}
use mano_reck.Regex.{Regex, cls, seq, star, literal, match_string}
use mano_reck.Event.{event_type_pattern, aggregate_type_pattern, lower}
use mano_reck.Outbox.Row.{Status, pending, publishing, published, dead_letter, Row}

-- ^manoreck\.events\.[a-z][a-z0-9_.]*\.v[1-9][0-9]*$
abbrev pub subject_tail : Regex
subject_tail = seq (cls ((b'1', b'9') ∷ [])) (star (cls ((b'0', b'9') ∷ [])))

abbrev pub subject_class : List (ℕ × ℕ)
subject_class = (b'a', b'z') ∷ (b'0', b'9') ∷ (b'_', b'_') ∷ (b'.', b'.') ∷ []

abbrev pub subject_pattern : Regex
subject_pattern =
    seq (literal (codes "manoreck.events."))
      (seq lower (seq (star (cls subject_class)) (seq (literal (codes ".v")) subject_tail)))

-- The CHECK constraints on the columns that never change.
unfoldable pub identity_checks : ℤ → Text → Text → Text → Bool
identity_checks event_version event_type aggregate_type subject =
    ltb_ℤ (pos 0) event_version
    && match_string event_type_pattern event_type
    && match_string aggregate_type_pattern aggregate_type
    && match_string subject_pattern subject

-- outbox_lease_state
unfoldable pub lease_state : Status → Option Text → Option ℕ → Bool
lease_state publishing (some owner) (some expiry) = true
lease_state publishing (some owner) none = false
lease_state publishing none expiry = false
lease_state _ none none = true
lease_state _ _ _ = false

-- outbox_terminal_state, over published_at and dead_lettered_at
unfoldable pub terminal_state : Status → Option ℕ → Option ℕ → Bool
terminal_state published (some at) none = true
terminal_state dead_letter none (some at) = true
terminal_state pending none none = true
terminal_state publishing none none = true
terminal_state _ _ _ = false

-- jsonb_typeof(payload) = 'object', the operator ->> at a name, and the cast of a text to integer,
-- which may fail.
pub record Jsonb : Type 0 where
  pub is_object : Text → Bool
  pub field : Text → Text → Option Text
  pub integer : Text → Option ℤ

-- The range of the 4-byte integer columns.
unfoldable pub fits_integer : ℤ → Bool
fits_integer n = leb_ℤ (negsuc 2147483647) n && leb_ℤ n (pos 2147483647)

-- `payload ->> name = value`: a missing field is NULL, which a CHECK lets pass.
abbrev pub same_field : Option Text → Text → Bool
same_field none value = true
same_field (some t) value = text_eq t value

-- `(payload ->> 'version')::integer = version`; a cast that fails refuses the row.
abbrev pub same_version : (Text → Option ℤ) → Option Text → ℤ → Bool
same_version integer none version = true
same_version integer (some t) version = elim (integer t) [
  | none ↦ false
  | some n ↦ leb_ℤ n version && leb_ℤ version n
]

module _ (operators : Jsonb) where
  -- outbox_payload_identity
  unfoldable pub payload_identity : Text → Text → Text → ℤ → Bool
  payload_identity payload id event_type event_version =
      same_field (operators.field payload (codes "id")) id
      && same_field (operators.field payload (codes "type")) event_type
      && same_version operators.integer (operators.field payload (codes "version")) event_version

  -- The CHECK of the column payload, and outbox_payload_identity.
  unfoldable pub payload_checks : Text → Text → Text → ℤ → Bool
  unfolding payload_identity
  payload_checks payload id event_type event_version =
      operators.is_object payload && payload_identity payload id event_type event_version

  -- Every constraint on one row but the types that the record itself gives: a status of the four, and
  -- an attempt count that is not negative.
  unfoldable pub row_checks : Row → Bool
  unfolding payload_checks lease_state terminal_state
  row_checks r =
      identity_checks r.event_version r.event_type r.aggregate_type r.subject
      && fits_integer r.event_version
      && payload_checks r.payload r.id r.event_type r.event_version
      && lease_state r.status r.lease_owner r.lease_expires_at
      && terminal_state r.status r.published_at r.dead_lettered_at

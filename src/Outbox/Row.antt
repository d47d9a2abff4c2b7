-- ===== src/Outbox/Row.antt =====
-- A row of platform.outbox_events, the order in which rows are claimed, and UPDATE over the table.
-- Instants are counts of nanoseconds.
use mano_reck.Prelude.{
  ℕ, Bool, true, false, ◌&&◌, ◌||◌, ltb, ◌==◌, if◌then◌else◌, Option, List, [], ◌∷◌, Text, text_eq,
  ℤ, suc,
}

pub data Status : Type 0 where
  pending publishing published dead_letter : Status

abbrev pub is_pending : Status → Bool
is_pending pending = true
is_pending _ = false

abbrev pub is_publishing : Status → Bool
is_publishing publishing = true
is_publishing _ = false

pub record Row : Type 0 where
  pub id : Text
  pub tenant_id : Option Text
  pub event_type : Text
  pub event_version : ℤ
  pub aggregate_type : Text
  pub aggregate_id : Text
  pub subject : Text
  pub occurred_at : ℕ
  pub correlation_id : Text
  pub causation_id : Text
  pub payload : Text
  pub status : Status
  pub attempt_count : ℕ
  pub next_attempt_at : ℕ
  pub lease_owner : Option Text
  pub lease_expires_at : Option ℕ
  pub published_at : Option ℕ
  pub dead_lettered_at : Option ℕ
  pub last_error_code : Option Text
  pub created_at : ℕ
  pub updated_at : ℕ

abbrev pub Table : Type 0
Table = List Row

-- The order of uuid values, which is that of their canonical texts.
unfoldable pub text_leb : Text → Text → Bool
text_leb [] t = true
text_leb (x ∷ xs) [] = false
text_leb (x ∷ xs) (y ∷ ys) = ltb x y || (x == y && text_leb xs ys)

-- ORDER BY created_at, id
unfoldable pub older : Row → Row → Bool
unfolding text_leb
older r q = ltb r.created_at q.created_at || (r.created_at == q.created_at && text_leb r.id q.id)

unfoldable pub insert_by_age : Row → Table → Table
insert_by_age r [] = r ∷ []
insert_by_age r (q ∷ rows) =
    let rest = insert_by_age r rows in if older r q then r ∷ q ∷ rows else q ∷ rest

unfoldable pub sort_by_age : Table → Table
unfolding insert_by_age
sort_by_age [] = []
sort_by_age (r ∷ rows) = insert_by_age r (sort_by_age rows)

-- The rows that a WHERE clause selects.
unfoldable pub where_rows : (Row → Bool) → Table → Table
where_rows test [] = []
where_rows test (r ∷ rows) = let rest = where_rows test rows in if test r then r ∷ rest else rest

-- `UPDATE … SET change WHERE test`, and the number of rows that it affects.
unfoldable pub update_where : (Row → Bool) → (Row → Row) → Table → Table
update_where test change [] = []
update_where test change (r ∷ rows) =
    (if test r then change r else r) ∷ update_where test change rows

unfoldable pub count_where : (Row → Bool) → Table → ℕ
count_where test [] = 0
count_where test (r ∷ rows) = let rest = count_where test rows in if test r then suc rest else rest

unfoldable pub has_id : Text → Table → Bool
has_id id [] = false
has_id id (r ∷ rows) = text_eq r.id id || has_id id rows

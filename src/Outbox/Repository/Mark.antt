-- ===== src/Outbox/Repository/Mark.antt =====
-- MarkPublished and MarkFailed of backend/internal/platform/outbox/repository.go.
use mano_reck.Prelude.{
  ℕ, Bool, false, not, ◌&&◌, ◌||◌, ◌==◌, if◌then◌else◌, Option, none, some, [], ◌∷◌, String, Text,
  text_eq, ℤ, pos, ltb_ℤ,
}
use mano_reck.GoError.{Error, errorf, wrapf}
use mano_reck.Database.{Database, Outcome, applied, refused, unacknowledged, pool}
use mano_reck.Outbox.Row.{
  pending, published, dead_letter, is_publishing, Row, Table, update_where, count_where,
}
use mano_reck.Outbox.Repository.Records.{failure_transient, failure_permanent}

-- The WHERE clause of both marks: the worker's own live lease on the event.
unfoldable pub owns : Text → Text → Row → Bool
owns event_id worker r =
    text_eq r.id event_id
    && is_publishing r.status
    && elim r.lease_owner [ none ↦ false | some owner ↦ text_eq owner worker ]

-- An UPDATE, and the test of RowsAffected after it.
unfoldable pub exec_statement :
    Outcome → String → String → (Row → Bool) → (Row → Row) → Table → Table × Option Error
exec_statement (refused e) failure lost test change table = (table, some (wrapf failure [] e))
exec_statement (unacknowledged e) failure lost test change table =
    (update_where test change table, some (wrapf failure [] e))
exec_statement applied failure lost test change table = (
  update_where test change table,
  if not (count_where test table == 1) then some (errorf lost []) else none,
)

-- The same through the pool, whose error comes first.
unfoldable pub exec_update :
    Option Error
    → Outcome
    → String
    → String
    → (Row → Bool)
    → (Row → Row)
    → Table
    → Table × Option Error
unfolding exec_statement
exec_update (some e) outcome failure lost test change table = (table, some e)
exec_update none outcome failure lost test change table =
    exec_statement outcome failure lost test change table

unfoldable pub publish_row : ℕ → Row → Row
publish_row now r = record r {
  status = published;
  published_at = some now;
  lease_owner = none;
  lease_expires_at = none;
  last_error_code = none;
  updated_at = now;
}

unfoldable pub mark_published : Database → Outcome → ℕ → Text → Text → Table → Table × Option Error
unfolding exec_update owns publish_row
mark_published database outcome now event_id worker table =
    exec_update (pool database) outcome "mark outbox event published: %w"
      "outbox publication lease is no longer owned" (owns event_id worker) (publish_row now) table

-- `$3 = 'permanent' OR attempt_count >= $4`
unfoldable pub is_final : Text → ℤ → Row → Bool
is_final class max_attempts r =
    text_eq class failure_permanent || not (ltb_ℤ (pos r.attempt_count) max_attempts)

unfoldable pub fail_row : ℕ → Text → ℤ → ℕ → Text → Row → Row
unfolding is_final
fail_row now class max_attempts next_attempt_at error_code r = record r {
  status = if is_final class max_attempts r then dead_letter else pending;
  next_attempt_at = next_attempt_at;
  lease_owner = none;
  lease_expires_at = none;
  dead_lettered_at = if is_final class max_attempts r then some now else none;
  last_error_code = some error_code;
  updated_at = now;
}

unfoldable pub mark_failed :
    Database → Outcome → ℕ → Text → Text → Text → ℤ → ℕ → Text → Table → Table × Option Error
unfolding exec_update owns fail_row
mark_failed database outcome now event_id worker class max_attempts next_attempt_at error_code
      table =
    if not (text_eq class failure_transient) && not (text_eq class failure_permanent)
    then (table, some (errorf "unknown outbox failure class %q" (class ∷ [])))
    else if ltb_ℤ max_attempts (pos 1)
    then (table, some (errorf "outbox maximum attempts must be positive" []))
    else if text_eq error_code []
    then (table, some (errorf "outbox failure code must not be empty" []))
    else exec_update (pool database) outcome "record outbox publication failure: %w"
        "outbox failure lease is no longer owned" (owns event_id worker)
        (fail_row now class max_attempts next_attempt_at error_code) table

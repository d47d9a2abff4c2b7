-- ===== src/Outbox/Repository/Insert.antt =====
-- Repository.Insert of backend/internal/platform/outbox/repository.go, within the caller's transaction.
use mano_reck.Prelude.{ℕ, not, if◌then◌else◌, Option, none, some, [], ◌∷◌, Text}
use mano_reck.GoError.{Error, wrapf, foreign, Result, ok, err}
use mano_reck.Event.{Envelope, validate, subject}
use mano_reck.Database.{Outcome, applied, refused, unacknowledged}
use mano_reck.Outbox.Row.{pending, Row, Table, has_id}
use mano_reck.Outbox.Schema.{row_checks}
use mano_reck.Outbox.Repository.Records.{Codec}

-- An INSERT that no constraint stops.
unfoldable pub add_row : Outcome → Row → Table → Table × Option Error
add_row applied r table = (r ∷ table, none)
add_row (refused e) r table = (table, some e)
add_row (unacknowledged e) r table = (r ∷ table, some e)

module _ (codec : Codec) where
  -- The row that the INSERT statement adds, with the defaults of the table.
  unfoldable pub new_row : ℕ → Envelope → Text → Text → Row
  new_row now e subject payload = record {
    id = e.id;
    tenant_id = e.tenant_id;
    event_type = e.type;
    event_version = e.version;
    aggregate_type = e.aggregate.type;
    aggregate_id = e.aggregate.id;
    subject = subject;
    occurred_at = e.occurred_at;
    correlation_id = e.correlation_id;
    causation_id = e.causation_id;
    payload = codec.jsonb payload;
    status = pending;
    attempt_count = 0;
    next_attempt_at = now;
    lease_owner = none;
    lease_expires_at = none;
    published_at = none;
    dead_lettered_at = none;
    last_error_code = none;
    created_at = now;
    updated_at = now;
  }

  -- INSERT: refused by PostgreSQL on a duplicate key or a failed check, or for its own reasons.
  unfoldable pub insert_row : Outcome → Row → Table → Table × Option Error
  unfolding add_row
  insert_row outcome r table =
      if has_id r.id table
      then (table, some (foreign 23505 []))
      else if not (row_checks codec.operators r)
      then (table, some (foreign 23514 []))
      else add_row outcome r table

  -- The end of Insert, after json.Marshal.
  unfoldable pub insert_marshalled :
      Outcome → ℕ → Envelope → Text → Result Text → Table → Table × Option Error
  unfolding new_row insert_row
  insert_marshalled outcome now e s (err x) table =
      (table, some (wrapf "marshal outbox event: %w" [] x))
  insert_marshalled outcome now e s (ok payload) table =
      let (table', failure) = insert_row outcome (new_row now e s payload) table in
      (table', elim failure [ none ↦ none | some x ↦ some (wrapf "insert outbox event: %w" [] x) ])

  -- Insert after Subject, and after Validate.
  unfoldable pub insert_subject :
      Outcome → ℕ → Envelope → Result Text → Table → Table × Option Error
  unfolding insert_marshalled
  insert_subject outcome now e (err x) table =
      (table, some (wrapf "create outbox subject: %w" [] x))
  insert_subject outcome now e (ok s) table =
      insert_marshalled outcome now e s (codec.marshal e) table

  unfoldable pub insert_valid : Outcome → ℕ → Envelope → Option Error → Table → Table × Option Error
  unfolding insert_subject
  insert_valid outcome now e (some x) table = (table, some (wrapf "validate outbox event: %w" [] x))
  insert_valid outcome now e none table = insert_subject outcome now e (subject e) table

  -- Insert, within the caller's transaction.
  unfoldable pub insert : Outcome → ℕ → Envelope → Table → Table × Option Error
  unfolding insert_valid
  insert outcome now e table = insert_valid outcome now e (validate e) table

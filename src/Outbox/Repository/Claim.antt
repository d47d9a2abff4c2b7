-- ===== src/Outbox/Repository/Claim.antt =====
-- Repository.Claim of backend/internal/platform/outbox/repository.go.
use mano_reck.Prelude.{
  ℕ, ◌+◌, ◌*◌, ◌/◌, Bool, false, not, ◌&&◌, ◌||◌, leb, if◌then◌else◌, Option, none, some, List, [],
  ◌∷◌, take, Text, ℤ, pos, pos_part, ltb_ℤ,
}
use mano_reck.GoError.{errorf, wrapf, Result, ok, err, ◌>>=◌}
use mano_reck.Identifier.{is_uuidv7}
use mano_reck.Event.{validate}
use mano_reck.Database.{Database, TxOutcomes, in_transaction}
use mano_reck.Outbox.Row.{
  publishing, is_pending, is_publishing, Row, Table, sort_by_age, where_rows, update_where, has_id,
}
use mano_reck.Outbox.Repository.Records.{
  Codec, Record, Interruption, scan_failed, rows_failed, Query, query_failed, answered,
}

-- The WHERE clause of the candidates: due, or leased and abandoned. A NULL lease never expires.
unfoldable pub claimable : ℕ → Row → Bool
claimable now r =
    (is_pending r.status && leb r.next_attempt_at now)
    || (is_publishing r.status && elim r.lease_expires_at [ none ↦ false | some t ↦ leb t now ])

-- ORDER BY, FOR UPDATE SKIP LOCKED, LIMIT; `locked` tells the rows that other transactions hold.
unfoldable pub candidates : ℕ → (Row → Bool) → ℕ → Table → Table
unfolding claimable
candidates now locked limit table =
    take limit (sort_by_age (where_rows (λ r. claimable now r && not (locked r)) table))

-- `lease.Microseconds()` as an interval.
abbrev pub whole_microseconds : ℤ → ℕ
whole_microseconds lease = pos_part lease / 1000 * 1000

unfoldable pub lease_row : ℕ → Text → ℤ → Row → Row
lease_row now worker lease r = record r {
  status = publishing;
  attempt_count = r.attempt_count + 1;
  lease_owner = some worker;
  lease_expires_at = some (now + whole_microseconds lease);
  updated_at = now;
}

module _ (codec : Codec) where
  -- The loop over the returned rows.
  unfoldable pub read_rows : Table → Result (List Record)
  read_rows [] = ok []
  read_rows (r ∷ rows) =
      let rest = read_rows rows in
      elim (codec.unmarshal r.payload) [
        | err x ↦ err (wrapf "decode claimed outbox event: %w" [] x)
        | ok e ↦ elim (validate e) [
          | some x ↦ err (wrapf "validate claimed outbox event: %w" [] x)
          | none ↦ elim rest [
            | err x ↦ err x
            | ok records ↦
                ok (
                  record { envelope = e; subject = r.subject; attempt = r.attempt_count } ∷ records)
          ]
        ]
      ]

  -- The loop, and the test of rows.Err after it: what broke off is met after the rows before it.
  unfoldable pub read_answer : Option Interruption → Table → Result (List Record)
  unfolding read_rows
  read_answer none rows = read_rows rows
  read_answer (some (scan_failed n x)) rows =
      read_rows (take n rows) >>= λ records. err (wrapf "scan claimed outbox event: %w" [] x)
  read_answer (some (rows_failed n x)) rows =
      read_rows (take n rows) >>= λ records. err (wrapf "iterate claimed outbox events: %w" [] x)

  -- The statement and its loop, inside the transaction. SQL leaves the order of RETURNING open.
  unfoldable pub claim_rows :
      Query → ℕ → (Row → Bool) → Text → ℕ → ℤ → Table → Table × Result (List Record)
  unfolding candidates lease_row read_answer
  claim_rows query now locked worker limit lease table =
      let chosen = candidates now locked limit table in
      let test = λ (r : Row). has_id r.id chosen in
      let table' = update_where test (lease_row now worker lease) table in
      elim query [
        | query_failed x ↦ (table, err (wrapf "claim outbox events: %w" [] x))
        | answered broken ↦
            (table', read_answer broken (where_rows (λ r. has_id r.id chosen) table'))
      ]

  unfoldable pub claim :
      Database
      → TxOutcomes
      → Query
      → ℕ
      → (Row → Bool)
      → Text
      → ℤ
      → ℤ
      → Table
      → Table × Result (List Record)
  unfolding claim_rows
  claim database outcomes query now locked worker limit lease table =
      if not (is_uuidv7 worker)
      then (table, err (errorf "outbox worker ID must be a UUIDv7" []))
      else if ltb_ℤ limit (pos 1) || ltb_ℤ (pos 1000) limit
      then (table, err (errorf "outbox claim limit must be between 1 and 1000" []))
      else if not (ltb_ℤ (pos 0) lease)
      then (table, err (errorf "outbox lease duration must be positive" []))
      else in_transaction database outcomes
          (some (claim_rows query now locked worker (pos_part limit) lease)) table

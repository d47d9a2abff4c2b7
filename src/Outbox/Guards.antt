-- ===== src/Outbox/Guards.antt =====
-- What holds of a table before a call and after its statement holds after the call, whichever guard
-- or outcome ends it.
use mano_reck.Prelude.{
  ℕ, ◌||◌, ◌&&◌, Bool, not, Bool-cases, inl, inr, Option, none, some, [], String, Text, text_eq, ℤ,
  pos, pos_part, ltb_ℤ,
}
use mano_reck.GoError.{Error}
use mano_reck.Identifier.{is_uuidv7}
use mano_reck.Database.{Database, TxOutcomes, Outcome, applied, refused, unacknowledged, pool}
use mano_reck.Database.Transaction.{in_transaction_keeps}
use mano_reck.Outbox.Row.{Row, Table, update_where}
use mano_reck.Outbox.Repository.{
  Codec, Query, claim_rows, claim, owns, exec_update, publish_row, fail_row, mark_published,
  mark_failed, failure_transient, failure_permanent,
}

module _ (P : Table → Type 0) (table : Table) (before : P table) where
  pub claim_keeps :
      (codec : Codec) (database : Database) (outcomes : TxOutcomes) (query : Query) (now : ℕ)
      (locked : Row → Bool) (worker : Text) (limit lease : ℤ)
      → P (claim_rows codec query now locked worker (pos_part limit) lease table).0
      → P (claim codec database outcomes query now locked worker limit lease table).0
  unfolding claim
  claim_keeps codec database outcomes query now locked worker limit lease after =
      elim (Bool-cases (not (is_uuidv7 worker))) [
        | inl bad ↦ rw bad before
        | inr good ↦ rw good (elim (Bool-cases (ltb_ℤ limit (pos 1) || ltb_ℤ (pos 1000) limit)) [
          | inl bad ↦ rw bad before
          | inr fits ↦ rw fits (elim (Bool-cases (not (ltb_ℤ (pos 0) lease))) [
            | inl bad ↦ rw bad before
            | inr positive ↦ rw positive (
                in_transaction_keeps P database outcomes
                  (claim_rows codec query now locked worker (pos_part limit) lease) table before
                  after)
          ])
        ])
      ]

  exec_update_keeps :
      (p : Option Error) (outcome : Outcome) (a b : String) (test : Row → Bool) (change : Row → Row)
      → P (update_where test change table)
      → P (exec_update p outcome a b test change table).0
  unfolding exec_update
  exec_update_keeps (some e) outcome a b test change after = before
  exec_update_keeps none (refused e) a b test change after = before
  exec_update_keeps none (unacknowledged e) a b test change after = after
  exec_update_keeps none applied a b test change after = after

  pub mark_published_keeps :
      (database : Database) (outcome : Outcome) (now : ℕ) (id worker : Text)
      → P (update_where (owns id worker) (publish_row now) table)
      → P (mark_published database outcome now id worker table).0
  unfolding mark_published
  mark_published_keeps database outcome now id worker after =
      exec_update_keeps (pool database) outcome "mark outbox event published: %w"
        "outbox publication lease is no longer owned" (owns id worker) (publish_row now) after

  pub mark_failed_keeps :
      (database : Database) (outcome : Outcome) (now : ℕ) (id worker class : Text)
      (max_attempts : ℤ) (next : ℕ) (code : Text)
      → P (update_where (owns id worker) (fail_row now class max_attempts next code) table)
      → P (mark_failed database outcome now id worker class max_attempts next code table).0
  unfolding mark_failed
  mark_failed_keeps database outcome now id worker class max_attempts next code after =
      elim (Bool-cases
        (not (text_eq class failure_transient) && not (text_eq class failure_permanent))) [
          | inl bad ↦ rw bad before
          | inr known ↦ rw known (elim (Bool-cases (ltb_ℤ max_attempts (pos 1))) [
            | inl bad ↦ rw bad before
            | inr positive ↦ rw positive (elim (Bool-cases (text_eq code [])) [
              | inl bad ↦ rw bad before
              | inr given ↦ rw given (
                  exec_update_keeps (pool database) outcome "record outbox publication failure: %w"
                    "outbox failure lease is no longer owned" (owns id worker)
                    (fail_row now class max_attempts next code) after)
            ])
          ])
        ]

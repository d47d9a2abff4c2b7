-- ===== src/Outbox/Operations.antt =====
-- The operations of the repository as transitions, and what holds after any sequence of them, by
-- any workers, at any instants and with any outcomes of the database.
use mano_reck.Prelude.{
  ℕ, ◌≡◌, ◌⊎◌, inl, inr, refl, Bool, true, List, [], ◌∷◌, Text, text_eq_refl, ℤ, pos_part, arith,
}
use mano_reck.Event.{Envelope}
use mano_reck.Database.{Database, TxOutcomes, Outcome}
use mano_reck.Outbox.Row.{Row, Table}
use mano_reck.Outbox.Rows.{UniqueIds}
use mano_reck.Outbox.Claiming.{chosen-Claimable, has_id-chosen}
use mano_reck.Outbox.Guards.{claim_keeps, mark_published_keeps, mark_failed_keeps}
use mano_reck.Outbox.Inserting.{insert-Inserted, Inserted}
use mano_reck.Outbox.Repository.{
  Codec, Query, query_failed, answered, insert, claim, claim_rows, lease_row, mark_published,
  mark_failed, owns, publish_row, fail_row,
}
use mano_reck.Outbox.Transitions.{
  leased, acknowledged, failed, Evolves, Evolves-refl, update_where-Evolves,
}

claim_rows-Evolves :
    (codec : Codec) (query : Query) (now : ℕ) (locked : Row → Bool) (worker : Text) (limit : ℕ)
    (lease : ℤ) (table : Table)
    → UniqueIds table
    → Evolves table (claim_rows codec query now locked worker limit lease table).0
unfolding claim_rows
claim_rows-Evolves codec (query_failed x) now locked worker limit lease table u = Evolves-refl table
claim_rows-Evolves codec (answered broken) now locked worker limit lease table u =
    update_where-Evolves _ (lease_row now worker lease) table λ r m h.
      let k = has_id-chosen now locked limit table u r m h in
      leased now worker lease (chosen-Claimable now locked limit table r k).1 refl

module _ (codec : Codec) (database : Database) (outcomes : TxOutcomes) (query : Query) (now : ℕ)
    (locked : Row → Bool) (worker : Text) (limit lease : ℤ) where
  pub claim-Evolves :
      (table : Table)
      → UniqueIds table
      → Evolves table (claim codec database outcomes query now locked worker limit lease table).0
  claim-Evolves table u =
      claim_keeps (Evolves table) table (Evolves-refl table) codec database outcomes query now
        locked worker limit lease
        (claim_rows-Evolves codec query now locked worker (pos_part limit) lease table u)

-- The key that an owned row has is its own.
owns_self : (id worker : Text) (r : Row) → owns id worker r ≡ true → owns r.id worker r ≡ true
unfolding owns
owns_self id worker r h = ground (arith, text_eq_refl r.id)

module _ (database : Database) (outcome : Outcome) (now : ℕ) (event_id worker : Text)
    (table : Table) where
  pub mark_published-Evolves :
      Evolves table (mark_published database outcome now event_id worker table).0
  mark_published-Evolves =
      mark_published_keeps (Evolves table) table (Evolves-refl table) database outcome now event_id
        worker
        (update_where-Evolves (owns event_id worker) (publish_row now) table
          (λ r m h. acknowledged now worker (owns_self event_id worker r h) refl))

  pub mark_failed-Evolves :
      (class : Text) (max_attempts : ℤ) (next : ℕ) (code : Text)
      → Evolves table
          (mark_failed database outcome now event_id worker class max_attempts next code table).0
  mark_failed-Evolves class max_attempts next code =
      mark_failed_keeps (Evolves table) table (Evolves-refl table) database outcome now event_id
        worker class max_attempts next code
        (update_where-Evolves (owns event_id worker) (fail_row now class max_attempts next code)
          table
          (λ r m h.
            failed now worker class max_attempts next code (owns_self event_id worker r h) refl))

-- One call of the repository, with what its environment did.
pub data Op : Type 0 where
  insert_op : Outcome → ℕ → Envelope → Op
  claim_op : Database → TxOutcomes → Query → ℕ → (Row → Bool) → Text → ℤ → ℤ → Op
  published_op : Database → Outcome → ℕ → Text → Text → Op
  failed_op : Database → Outcome → ℕ → Text → Text → Text → ℤ → ℕ → Text → Op

unfoldable pub run_op : Codec → Op → Table → Table
run_op codec (insert_op outcome now e) table = (insert codec outcome now e table).0
run_op codec (claim_op database outcomes query now locked worker limit lease) table =
    (claim codec database outcomes query now locked worker limit lease table).0
run_op codec (published_op database outcome now id worker) table =
    (mark_published database outcome now id worker table).0
run_op codec (failed_op database outcome now id worker class max_attempts next code) table =
    (mark_failed database outcome now id worker class max_attempts next code table).0

unfoldable pub run_ops : Codec → List Op → Table → Table
unfolding run_op
run_ops codec [] table = table
run_ops codec (op ∷ ops) table = run_ops codec ops (run_op codec op table)

-- Each call either lets every row make a transition, or adds one row.
pub run_op-cases :
    (codec : Codec) (op : Op) (table : Table)
    → UniqueIds table
    → Evolves table (run_op codec op table) ⊎ Inserted codec.operators table (run_op codec op table)
unfolding run_op
run_op-cases codec (insert_op outcome now e) table u =
    inr (insert-Inserted codec outcome now e table)
run_op-cases codec (claim_op database outcomes query now locked worker limit lease) table u =
    inl (claim-Evolves codec database outcomes query now locked worker limit lease table u)
run_op-cases codec (published_op database outcome now id worker) table u =
    inl (mark_published-Evolves database outcome now id worker table)
run_op-cases codec (failed_op database outcome now id worker class max_attempts next code) table u =
    inl (mark_failed-Evolves database outcome now id worker table class max_attempts next code)

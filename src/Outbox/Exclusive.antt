-- ===== src/Outbox/Exclusive.antt =====
-- A lease is exclusive: until it expires, only its owner changes the row.
use mano_reck.Prelude.{
  ℕ, ◌<◌, ◌≡◌, ◌≢◌, inl, inr, sym, Bool, false, Bool-cases, if◌then◌else◌, some, List, [], ◌∷◌,
  Text, text_eq, text_eq→eq, ℤ, pos_part, arith, subst, All,
}
use mano_reck.Outbox.Row.{Row, Table, publishing, update_where, has_id}
use mano_reck.Outbox.Rows.{In, UniqueIds, update_where-In}
use mano_reck.Outbox.Claiming.{chosen, chosen-Claimable, has_id-chosen}
use mano_reck.Outbox.Repository.{
  Codec, Query, query_failed, answered, claimable, lease_row, claim_rows, owns, publish_row,
  fail_row,
}
use mano_reck.Outbox.Guards.{claim_keeps, mark_published_keeps, mark_failed_keeps}
use mano_reck.Outbox.Inserting.{insert-Inserted}
use mano_reck.Outbox.Histories.{run_op-UniqueIds}
use mano_reck.Outbox.Operations.{Op, insert_op, claim_op, published_op, failed_op, run_op, run_ops}

-- An update whose test fails at a row keeps the row.
missed :
    (test : Row → Bool) (change : Row → Row) (table : Table) (r : Row)
    → In r table
    → test r ≡ false
    → In r (update_where test change table)
missed test change table r m f =
    subst (λ b. In (if b then change r else r) (update_where test change table)) f
      (update_where-In test change table r m)

claim_rows-missed :
    (codec : Codec) (query : Query) (now : ℕ) (locked : Row → Bool) (worker : Text) (limit : ℕ)
    (lease : ℤ) (table : Table) (r : Row)
    → UniqueIds table
    → In r table
    → claimable now r ≡ false
    → In r (claim_rows codec query now locked worker limit lease table).0
unfolding claim_rows
claim_rows-missed codec (query_failed x) now locked worker limit lease table r u m f = m
claim_rows-missed codec (answered broken) now locked worker limit lease table r u m f =
    let c = chosen now locked limit table in
    elim (Bool-cases (has_id r.id c)) [
      | inl t ↦
          let k =
            chosen-Claimable now locked limit table r
              (has_id-chosen now locked limit table u r m t) in
          cc (k.1, f)
      | inr n ↦ missed _ (lease_row now worker lease) table r m n
    ]

-- The row is leased to `worker` until `expiry`.
pub record IsLeased (worker : Text) (expiry : ℕ) (r : Row) : Type 0 where
  pub status : r.status ≡ publishing
  pub owner : r.lease_owner ≡ some worker
  pub expires : r.lease_expires_at ≡ some expiry

leased-claimable :
    (worker : Text) (expiry now : ℕ) (r : Row)
    → IsLeased worker expiry r
    → now < expiry
    → claimable now r ≡ false
unfolding claimable
leased-claimable worker expiry now r l h = ground (arith, l.status, l.expires)

leased-owns :
    (worker other id : Text) (expiry : ℕ) (r : Row)
    → IsLeased worker expiry r
    → other ≢ worker
    → owns id other r ≡ false
unfolding owns
leased-owns worker other id expiry r l ne = elim (Bool-cases (text_eq worker other)) [
  | inl t ↦ absurd (ne (sym (text_eq→eq worker other t)))
  | inr f ↦ ground (arith, l.owner, f)
]

-- Calls that are not the lease owner's, before the lease expires.
abbrev pub Foreign : Text → ℕ → Op → Type 0
Foreign worker expiry (insert_op outcome now e) = Unit
Foreign worker expiry (claim_op database outcomes query now locked claimant limit lease) =
    now < expiry
Foreign worker expiry (published_op database outcome now id other) = other ≢ worker
Foreign worker expiry (failed_op database outcome now id other class max_attempts next code) =
    other ≢ worker

run_op-missed :
    (codec : Codec) (op : Op) (table : Table) (worker : Text) (expiry : ℕ) (r : Row)
    → UniqueIds table
    → In r table
    → IsLeased worker expiry r
    → Foreign worker expiry op
    → In r (run_op codec op table)
unfolding run_op
run_op-missed codec (insert_op outcome now e) table worker expiry r u m l f =
    elim (insert-Inserted codec outcome now e table) [
      | inl same ↦ subst (In r) (sym same) m
      | inr (q, added, fresh, good) ↦ subst (In r) (sym added) (inr m)
    ]
run_op-missed codec (claim_op database outcomes query now locked claimant limit lease) table worker
      expiry r u m l f =
    claim_keeps (In r) table m codec database outcomes query now locked claimant limit lease (
      claim_rows-missed codec query now locked claimant (pos_part limit) lease table r u m
        (leased-claimable worker expiry now r l f))
run_op-missed codec (published_op database outcome now id other) table worker expiry r u m l f =
    mark_published_keeps (In r) table m database outcome now id other (
      missed (owns id other) (publish_row now) table r m (leased-owns worker other id expiry r l f))
run_op-missed codec (failed_op database outcome now id other class max_attempts next code) table
      worker expiry r u m l f =
    mark_failed_keeps (In r) table m database outcome now id other class max_attempts next code (
      missed (owns id other) (fail_row now class max_attempts next code) table r m
        (leased-owns worker other id expiry r l f))

-- In a table of unique keys, a leased row stays as it is through any insertions, claims made before the
-- lease expires, and markings by other workers, in any order and with any outcomes of the database.
pub run_ops-exclusive :
    (codec : Codec) (ops : List Op) (table : Table) (worker : Text) (expiry : ℕ) (r : Row)
    → UniqueIds table
    → In r table
    → IsLeased worker expiry r
    → All (Foreign worker expiry) ops
    → In r (run_ops codec ops table)
unfolding run_ops
run_ops-exclusive codec [] table worker expiry r c m l f = m
run_ops-exclusive codec (op ∷ ops) table worker expiry r c m l f =
    run_ops-exclusive codec ops (run_op codec op table) worker expiry r
      (run_op-UniqueIds codec op table c) (run_op-missed codec op table worker expiry r c m l f.0) l
      f.1

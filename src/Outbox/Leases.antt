-- ===== src/Outbox/Leases.antt =====
-- A successful Claim: which rows it leases, and what it leaves.
use mano_reck.Prelude.{
  ℕ, ◌≤◌, ◌≡◌, ◌⊎◌, inl, inr, sym, Bool, true, false, ◌||◌, Bool-cases, if◌then◌else◌, some, List,
  Text, ℤ, pos, pos_part, ltb_ℤ, arith, subst, length,
}
use mano_reck.GoError.{ok}
use mano_reck.Identifier.{is_uuidv7}
use mano_reck.Database.{Database, TxOutcomes, in_transaction}
use mano_reck.Database.Transaction.{Atomic, in_transaction-Atomic}
use mano_reck.Outbox.Row.{Row, Table, where_rows, update_where, has_id, older}
use mano_reck.Outbox.Rows.{In, UniqueIds, has_id-In, update_where-In}
use mano_reck.Outbox.Claiming.{
  Claimable, chosen, chosen-Claimable, chosen_first, has_id-chosen, chosen-length,
}
use mano_reck.Outbox.Limits.{Query-cases, read_answer-length, leased_length, chosen_count}
use mano_reck.Outbox.Repository.{
  Codec, Record, Query, claimable, candidates, lease_row, claim_rows, claim, read_answer,
}

module _ (codec : Codec) (query : Query) (now : ℕ) (locked : Row → Bool) (worker : Text) (lease : ℤ)
    (table : Table) {t' : Table} {records : List Record} where
  claim_rows-ok :
      (limit : ℕ)
      → claim_rows codec query now locked worker limit lease table ≡ (t', ok records)
      → t'
        ≡ update_where
            (λ r. has_id r.id (candidates now locked limit table))
            (lease_row now worker lease)
            table
  unfolding claim_rows
  claim_rows-ok limit h = elim (Query-cases query) [
    | inl (x, e) ↦ absurd (ground arith)
    | inr (i, e) ↦ ground arith
  ]

  claim_rows-length :
      (limit : ℕ)
      → UniqueIds table
      → claim_rows codec query now locked worker limit lease table ≡ (t', ok records)
      → length records ≤ limit
  unfolding claim_rows
  claim_rows-length limit u h = elim (Query-cases query) [
    | inl (x, e) ↦ absurd (ground arith)
    | inr (i, e) ↦
        let c = chosen now locked limit table in
        let rows =
          where_rows (λ r. has_id r.id c)
            (update_where (λ r. has_id r.id c) (lease_row now worker lease) table) in
        let read : read_answer codec i rows ≡ ok records = ground arith in
        omega (
          arith,
          read_answer-length codec i rows read,
          leased_length now worker lease c table,
          chosen_count table c u,
          chosen-length now locked limit table,
        )
  ]

  claim-ok :
      (database : Database) (outcomes : TxOutcomes) (limit : ℤ)
      → claim codec database outcomes query now locked worker limit lease table ≡ (t', ok records)
      → claim_rows codec query now locked worker (pos_part limit) lease table ≡ (t', ok records)
  unfolding claim
  claim-ok database outcomes limit h = elim (Bool-cases (is_uuidv7 worker)) [
    | inr bad ↦ absurd (ground arith)
    | inl good ↦ elim (Bool-cases (ltb_ℤ limit (pos 1) || ltb_ℤ (pos 1000) limit)) [
      | inl bad ↦ absurd (ground arith)
      | inr fits ↦ elim (Bool-cases (ltb_ℤ (pos 0) lease)) [
        | inr bad ↦ absurd (ground arith)
        | inl positive ↦
            let operation = claim_rows codec query now locked worker (pos_part limit) lease in
            let h' : in_transaction database outcomes (some operation) table ≡ (t', ok records) =
              rw (good, fits, positive) at h in
            (subst (Atomic outcomes table (operation table)) h'
              (in_transaction-Atomic database outcomes operation table)).0
      ]
    ]
  ]

module _ (now : ℕ) (locked : Row → Bool) (limit : ℕ) (table : Table) where
  left_behind :
      (r : Row)
      → In r table
      → has_id r.id (chosen now locked limit table) ≡ false
      → (¬ Claimable now locked limit table r)
        ⊎ ((length (chosen now locked limit table) ≡ limit)
            × ((c : Row) → In c (chosen now locked limit table) → older c r ≡ true))
  left_behind r m f = elim (Bool-cases (claimable now r)) [
    | inr late ↦ inl (λ k. cc (k.1, late))
    | inl due ↦ elim (Bool-cases (locked r)) [
      | inl held ↦ inl (λ k. cc (k.2, held))
      | inr free ↦ elim (chosen_first now locked limit table r (m, due, free)) [
        | inl i ↦ cc (has_id-In r (chosen now locked limit table) i, f)
        | inr first ↦ inr first
      ]
    ]
  ]

-- How a claim leaves one row of the table: leased, as one of the batch, or as it was; in the second case
-- the row could not be claimed, or the batch is full and all its rows come first by creation time and key.
abbrev pub Taken : ℕ → (Row → Bool) → Text → ℕ → ℤ → Table → Table → Row → Type 0
Taken now locked worker limit lease table table' r =
    (Claimable now locked limit table r
      × In r (chosen now locked limit table)
      × In (lease_row now worker lease r) table')
    ⊎ (In r table'
        × ((¬ Claimable now locked limit table r)
            ⊎ ((length (chosen now locked limit table) ≡ limit)
                × ((c : Row) → In c (chosen now locked limit table) → older c r ≡ true))))

-- A successful claim on a table of unique keys returns at most `limit` records and leases a batch of at
-- most `limit` rows. Each row either was due or abandoned and not locked by others, and is leased as one
-- of the batch; or is as it was, and then it was not claimable, or the batch is full of rows that are no
-- younger.
pub claim_takes_oldest :
    (codec : Codec) (database : Database) (outcomes : TxOutcomes) (query : Query) (now : ℕ)
    (locked : Row → Bool) (worker : Text) (limit lease : ℤ) (table : Table) {t' : Table}
    {records : List Record}
    → UniqueIds table
    → claim codec database outcomes query now locked worker limit lease table ≡ (t', ok records)
    → (length records ≤ pos_part limit)
      × (length (chosen now locked (pos_part limit) table) ≤ pos_part limit)
      × ((r : Row) → In r table → Taken now locked worker (pos_part limit) lease table t' r)
claim_takes_oldest codec database outcomes query now locked worker limit lease table {t'} u h =
    let n = pos_part limit in
    let c = chosen now locked n table in
    let inner = claim-ok codec query now locked worker lease table database outcomes limit h in
    let rows = claim_rows-ok codec query now locked worker lease table n inner in
    let test = λ (x : Row). has_id x.id c in
    let change = lease_row now worker lease in
    let place = λ (r : Row) (m : In r table) (b : Bool) (e : test r ≡ b).
      subst (λ t. In (if b then change r else r) t) (sym rows)
        (subst (λ d. In (if d then change r else r) (update_where test change table)) e
          (update_where-In test change table r m)) in
    (
      claim_rows-length codec query now locked worker lease table n u inner,
      chosen-length now locked n table,
      λ r m. elim (Bool-cases (test r)) [
        | inl t ↦
            let k = has_id-chosen now locked n table u r m t in
            inl (chosen-Claimable now locked n table r k, k, place r m true t)
        | inr f ↦ inr (place r m false f, left_behind now locked n table r m f)
      ],
    )

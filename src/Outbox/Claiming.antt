-- ===== src/Outbox/Claiming.antt =====
-- What a claim does to the table: who is chosen, and how each row changes.
use mano_reck.Prelude.{
  ℕ, ◌≤◌, ◌≡◌, ◌⊎◌, sym, Bool, true, false, not, ◌&&◌, &&_parts, length, length-take_le, arith,
}
use mano_reck.Outbox.Row.{Row, Table, where_rows, sort_by_age, older, has_id}
use mano_reck.Outbox.Rows.{
  In, UniqueIds, In-has_id, In-unique, In-where_rows, where_rows-In, In-take,
}
use mano_reck.Outbox.Age.{In-sort_by_age, oldest_first}
use mano_reck.Outbox.Repository.{claimable, candidates}

module _ (now : ℕ) (locked : Row → Bool) (limit : ℕ) (table : Table) where
  -- The rows that the claim may take.
  abbrev pub Claimable : Row → Type 0
  Claimable r = In r table × (claimable now r ≡ true) × (locked r ≡ false)

  abbrev pub chosen : Table
  chosen = candidates now locked limit table

  pub chosen-Claimable : (r : Row) → In r chosen → Claimable r
  unfolding candidates
  chosen-Claimable r m =
      let test = λ (x : Row). claimable now x && not (locked x) in
      let kept = where_rows test table in
      let (n, t) =
        In-where_rows test table r (In-sort_by_age kept r (In-take limit (sort_by_age kept) r m)) in
      let (c, l) = &&_parts (claimable now r) (not (locked r)) t in (n, c, ground arith)

  pub chosen-length : length chosen ≤ limit
  unfolding candidates
  chosen-length = length-take_le limit _

  -- A row that may be taken and is left comes after all that are taken, and then the batch is full.
  pub chosen_first :
      (r : Row)
      → Claimable r
      → In r chosen ⊎ ((length chosen ≡ limit) × ((c : Row) → In c chosen → older c r ≡ true))
  unfolding candidates
  chosen_first r (m, c, l) =
      let test = λ (x : Row). claimable now x && not (locked x) in
      oldest_first limit (where_rows test table) r (where_rows-In test table r m (ground arith))

  -- With unique keys the chosen keys belong to the chosen rows.
  pub has_id-chosen :
      UniqueIds table → (r : Row) → In r table → has_id r.id chosen ≡ true → In r chosen
  has_id-chosen unique r m h =
      let (q, k, e) = In-has_id r.id chosen h in
      let same : r ≡ q = In-unique table r q unique m (chosen-Claimable q k).0 (sym e) in rw same k

-- ===== src/Outbox/Relay/Batch.antt =====
-- A whole pass of the relay: what it claims is published.
use mano_reck.Prelude.{
  ◌+◌, ◌≡◌, ◌⊎◌, inl, inr, refl, sym, ap, ◌∙◌, Bool, true, false, ◌||◌, Bool-cases, if◌then◌else◌,
  none, List, [], ◌∷◌, Text, pos, pos_part, ltb_ℤ, length, arith, subst,
}
use mano_reck.GoError.{Result, ok}
use mano_reck.Identifier.{is_uuidv7}
use mano_reck.Event.{Envelope, validate}
use mano_reck.Database.Transaction.{in_transaction-commits}
use mano_reck.Outbox.Row.{Row, Table, update_where, where_rows, has_id, older}
use mano_reck.Outbox.Rows.{
  In, UniqueIds, has_id-In, In-where_rows, where_rows-In, In-update_where, update_where-In,
  UniqueIds-update_where,
}
use mano_reck.Outbox.Claiming.{chosen, chosen-Claimable, chosen_first}
use mano_reck.Outbox.Repository.{
  Codec, Record, claimable, lease_row, read_rows, read_answer, claim_rows, claim,
}
use mano_reck.Outbox.Relay.{RelayConfig, after_claim, process_batch}
use mano_reck.Outbox.Relay.World.{World, Surroundings, enter, claim_call, services}
use mano_reck.Outbox.Relay.Calm.{Calm, Leased}
use mano_reck.Outbox.Relay.Progress.{Naming, Published, process_records-Published}

-- The payload of a row decodes to a valid envelope with the row's key, as Insert stores it.
abbrev pub Readable : Codec → Row → Type 0
Readable codec r =
    (e : Envelope) × (codec.unmarshal r.payload ≡ ok e) × (validate e ≡ none) × (e.id ≡ r.id)

read_rows-Naming :
    (codec : Codec) (rows : Table)
    → ((r : Row) → In r rows → Readable codec r)
    → (records : List Record) × (read_rows codec rows ≡ ok records) × Naming records rows
unfolding read_rows
read_rows-Naming codec [] h = ([], refl, tt)
read_rows-Naming codec (r ∷ rows) h =
    let (e, decoded, valid, same) = h r (inl refl) in
    let (records, rest, named) = read_rows-Naming codec rows (λ q m. h q (inr m)) in
    (
      record { envelope = e; subject = r.subject; attempt = r.attempt_count } ∷ records,
      rw (read_rows, decoded, valid, rest) refl,
      (same, named),
    )

has_id-where_rows :
    (id : Text) (test : Row → Bool) (rows : Table)
    → has_id id rows ≡ false
    → has_id id (where_rows test rows) ≡ false
unfolding has_id where_rows
has_id-where_rows id test [] h = refl
has_id-where_rows id test (q ∷ rows) h = ground (arith, has_id-where_rows id test rows)

UniqueIds-where_rows :
    (test : Row → Bool) (rows : Table) → UniqueIds rows → UniqueIds (where_rows test rows)
unfolding where_rows
UniqueIds-where_rows test [] u = tt
UniqueIds-where_rows test (q ∷ rows) (fresh, u) = elim (Bool-cases (test q)) [
  | inl t ↦ rw t (has_id-where_rows q.id test rows fresh, UniqueIds-where_rows test rows u)
  | inr f ↦ rw f (UniqueIds-where_rows test rows u)
]

module _ (env : Surroundings) (calm : Calm env) (c : RelayConfig) (worker : Text) (w : World) where
  abbrev pub batch : Table
  batch = chosen (env.clock w.calls) (env.locked w.calls) (pos_part c.batch_size) w.table

  abbrev is_chosen : Row → Bool
  is_chosen r = has_id r.id batch

  abbrev lease : Row → Row
  lease = lease_row (env.clock w.calls) worker c.lease_duration

  abbrev claimed : Table
  claimed = update_where is_chosen lease w.table

  abbrev returned : Table
  returned = where_rows is_chosen claimed

  -- A returned row is the lease of a row of the table.
  returned_from : (r : Row) → In r returned → (q : Row) × In q w.table × (r ≡ lease q)
  returned_from r m =
      let (n, t) = In-where_rows is_chosen claimed r m in
      let (q, k, how) = In-update_where is_chosen lease w.table r n in
      elim how [ inl (t', e) ↦ (q, k, e) | inr (f, e) ↦ cc (t, f, ap is_chosen e) ]

  claim-eq :
      (records : List Record)
      → is_uuidv7 worker ≡ true
      → (ltb_ℤ c.batch_size (pos 1) || ltb_ℤ (pos 1000) c.batch_size) ≡ false
      → ltb_ℤ (pos 0) c.lease_duration ≡ true
      → read_rows env.codec returned ≡ ok records
      → claim env.codec
          (env.database w.calls)
          (env.outcomes w.calls)
          (env.query w.calls)
          (env.clock w.calls)
          (env.locked w.calls)
          worker
          c.batch_size
          c.lease_duration
          w.table
        ≡ (claimed, ok records)
  unfolding claim claim_rows read_answer
  claim-eq records id fits positive read =
      rw (claim, id, fits, positive)
        (in_transaction-commits (env.database w.calls) (env.outcomes w.calls) _ w.table claimed
          records (calm.database w.calls) (calm.begin w.calls) (calm.commit w.calls)
          (rw (claim_rows, calm.query w.calls, read) refl))

  claim_call-eq :
      (records : List Record)
      → is_uuidv7 worker ≡ true
      → (ltb_ℤ c.batch_size (pos 1) || ltb_ℤ (pos 1000) c.batch_size) ≡ false
      → ltb_ℤ (pos 0) c.lease_duration ≡ true
      → read_rows env.codec returned ≡ ok records
      → claim_call env worker c.batch_size c.lease_duration w
        ≡ (record w { table = claimed; calls = w.calls + 1 }, ok records)
  unfolding claim_call enter
  claim_call-eq records id fits positive read =
      rw (claim_call, enter, calm.alone w.calls w, claim-eq records id fits positive read) refl

  lease-id : (r : Row) → (lease r).id ≡ r.id
  unfolding lease_row
  lease-id r = refl

  -- The batch is published, and what could have been claimed beside it is younger than a full batch.
  abbrev pub Progressed : World → Type 0
  Progressed w' =
      ((r : Row) → In r batch → Published r w')
      × ((r : Row)
          → In r w.table
          → claimable (env.clock w.calls) r ≡ true
          → In r batch
            ⊎ ((length batch ≡ pos_part c.batch_size)
                × ((q : Row) → In q batch → older q r ≡ true)))

  batch-Leased : (r : Row) → In r returned → In r claimed × Leased worker r
  unfolding lease_row
  batch-Leased r m =
      let (q, n, e) = returned_from r m in
      ((In-where_rows is_chosen claimed r m).0, subst (Leased worker) (sym e) (refl, refl))

  batch-Readable :
      ((q : Row) → In q w.table → Readable env.codec q)
      → (r : Row) → In r returned
      → Readable env.codec r
  unfolding lease_row
  batch-Readable readable r m =
      let (q, n, e) = returned_from r m in subst (Readable env.codec) (sym e) (readable q n)

  batch-returned : (r : Row) → In r batch → In (lease r) returned
  batch-returned r m =
      let chosen_ = has_id-In r batch m in
      let held =
        (chosen-Claimable (env.clock w.calls) (env.locked w.calls) (pos_part c.batch_size) w.table r
          m).0 in
      where_rows-In is_chosen claimed (lease r)
        (subst (λ b. In (if b then lease r else r) claimed) chosen_
          (update_where-In is_chosen lease w.table r held))
        (ap is_chosen_id (lease-id r) ∙ chosen_)
    where
      is_chosen_id : Text → Bool
      is_chosen_id id = has_id id batch

  -- While nothing fails or interferes, for a worker and numbers that Claim takes and a table of unique keys
  -- with readable payloads: a pass of the relay reports no error, each row of its batch is published with
  -- its event in the stream, and each row that could have been claimed is in the batch, or the batch is
  -- full and no row of it is younger.
  pub process_batch-Progressed :
      is_uuidv7 worker ≡ true
      → (ltb_ℤ c.batch_size (pos 1) || ltb_ℤ (pos 1000) c.batch_size) ≡ false
      → ltb_ℤ (pos 0) c.lease_duration ≡ true
      → UniqueIds w.table
      → ((r : Row) → In r w.table → Readable env.codec r)
      → (w' : World) × (process_batch (services env) c worker w ≡ (w', none)) × Progressed w'
  unfolding process_batch after_claim services lease_row
  process_batch-Progressed id fits positive u readable =
      let (records, read, named) = read_rows-Naming env.codec returned (batch-Readable readable) in
      let start : World = record w { table = claimed; calls = w.calls + 1 } in
      let (w', loop, keeps, done) =
        process_records-Published env calm c worker records returned start named
          (UniqueIds-update_where is_chosen lease lease-id w.table u)
          (UniqueIds-where_rows is_chosen claimed
            (UniqueIds-update_where is_chosen lease lease-id w.table u))
          batch-Leased in
      (
        w',
        ap (λ (p : World × Result (List Record)). after_claim (services env) c worker p.1 p.0)
              (claim_call-eq records id fits positive read)
            ∙ loop,
        (
          λ r m. done (lease r) (batch-returned r m),
          λ r m due.
              chosen_first (env.clock w.calls) (env.locked w.calls) (pos_part c.batch_size) w.table
                r (m, due, calm.unlocked w.calls r),
        ),
      )

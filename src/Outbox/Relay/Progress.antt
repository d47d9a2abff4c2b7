-- ===== src/Outbox/Relay/Progress.antt =====
-- A batch of the relay publishes everything that it claims, while nothing fails.
use mano_reck.Prelude.{
  ℕ, ◌+◌, ◌≡◌, inl, inr, refl, sym, ap, ◌∙◌, false, Bool-cases, if◌then◌else◌, none, List, [], ◌∷◌,
  Text, text_eq, text_eq→eq, arith, subst,
}
use mano_reck.Outbox.Row.{Row, Table, published, is_publishing, has_id}
use mano_reck.Outbox.Rows.{In, UniqueIds, has_id-In, update_where-In, UniqueIds-update_where}
use mano_reck.Outbox.Repository.{Record, owns, publish_row}
use mano_reck.Outbox.Relay.{RelayConfig, process_records}
use mano_reck.Outbox.Relay.World.{World, Surroundings, services}
use mano_reck.Outbox.Relay.Safety.{InText}
use mano_reck.Outbox.Relay.Calm.{
  Calm, Leased, Leased-owns, after_record, publish_record-eq, process_records-next,
}

-- The records name the rows, one by one.
abbrev pub Naming : List Record → Table → Type 0
Naming [] [] = Unit
Naming [] (r ∷ rows) = ⊥
Naming (x ∷ records) [] = ⊥
Naming (x ∷ records) (r ∷ rows) = (x.envelope.id ≡ r.id) × Naming records rows

-- The event of `r` is in the stream, and its row is published.
abbrev pub Published : Row → World → Type 0
Published r w =
    InText r.id w.stream × (q : Row) × In q w.table × (q.id ≡ r.id) × (q.status ≡ published)

-- What never goes away: stored events, and rows that no lease holds.
abbrev pub Keeps : World → World → Type 0
Keeps w w' =
    ((id : Text) → InText id w.stream → InText id w'.stream)
    × ((r : Row) → In r w.table → is_publishing r.status ≡ false → In r w'.table)

Keeps-Published : (r : Row) (w w' : World) → Keeps w w' → Published r w → Published r w'
Keeps-Published r w w' (stream, rows) (stored, q, m, same, done) =
    (stream r.id stored, q, rows q m (ap is_publishing done), same, done)

other_row :
    (r q : Row) (rows : Table) → has_id r.id rows ≡ false → In q rows → text_eq q.id r.id ≡ false
other_row r q rows fresh m = elim (Bool-cases (text_eq q.id r.id)) [
  | inr f ↦ f
  | inl t ↦ cc (has_id-In q rows m, ap (λ i. has_id i rows) (text_eq→eq q.id r.id t), fresh)
]

owns-other : (id worker : Text) (q : Row) → text_eq q.id id ≡ false → owns id worker q ≡ false
unfolding owns
owns-other id worker q f = rw (owns, f) refl

owns-idle : (id worker : Text) (q : Row) → is_publishing q.status ≡ false → owns id worker q ≡ false
unfolding owns
owns-idle id worker q f = ground arith

module _ (env : Surroundings) (calm : Calm env) (c : RelayConfig) (worker : Text) where
  untouched :
      (r q : Row) (w : World)
      → In q w.table
      → owns r.id worker q ≡ false
      → In q (after_record env calm worker r w).table
  untouched r q w m f =
      subst
        (λ b.
          In (if b then publish_row (env.clock (w.calls + 1)) q else q)
            (after_record env calm worker r w).table)
        f (update_where-In (owns r.id worker) (publish_row (env.clock (w.calls + 1))) w.table q m)

  after_record-Keeps : (r : Row) (w : World) → Keeps w (after_record env calm worker r w)
  after_record-Keeps r w = (λ id m. inr m, λ q m f. untouched r q w m (owns-idle r.id worker q f))

  after_record-Published :
      (r : Row) (w : World)
      → In r w.table
      → Leased worker r
      → Published r (after_record env calm worker r w)
  unfolding publish_row
  after_record-Published r w m leased = (
    inl refl,
    publish_row (env.clock (w.calls + 1)) r,
    subst
        (λ b.
          In (if b then publish_row (env.clock (w.calls + 1)) r else r)
            (after_record env calm worker r w).table)
        (Leased-owns worker r leased)
        (update_where-In (owns r.id worker) (publish_row (env.clock (w.calls + 1))) w.table r m),
    refl,
    refl,
  )

  publish_row-id : (now : ℕ) (r : Row) → (publish_row now r).id ≡ r.id
  unfolding publish_row
  publish_row-id now r = refl

  -- The loop over records that name leased rows of the table.
  pub process_records-Published :
      (records : List Record) (rows : Table) (w : World)
      → Naming records rows
      → UniqueIds w.table
      → UniqueIds rows
      → ((r : Row) → In r rows → In r w.table × Leased worker r)
      → (w' : World) × (process_records (services env) c worker records w ≡ (w', none))
        × Keeps w w'
        × ((r : Row) → In r rows → Published r w')
  unfolding process_records services
  process_records-Published [] [] w named u v held =
      (w, refl, (λ id m. m, λ r m f. m), λ r m. absurd m)
  process_records-Published (x ∷ records) (r ∷ rows) w (same, named) u v held =
      let (m, leased) = held r (inl refl) in
      let w1 = after_record env calm worker r w in
      let step = publish_record-eq env calm c worker x r w same u m leased in
      let (w', rest, keeps, done) =
        process_records-Published records rows w1 named
          (UniqueIds-update_where (owns r.id worker) (publish_row (env.clock (w.calls + 1)))
            (publish_row-id (env.clock (w.calls + 1))) w.table u)
          v.1
          (λ q n. (
            untouched r q w (held q (inr n)).0
                (owns-other r.id worker q (other_row r q rows v.0 n)),
            (held q (inr n)).1,
          )) in
      (
        w',
        process_records-next (services env) c worker x records w w1 step ∙ rest,
        (
          λ id n. keeps.0 id (inr n),
          λ q n f. keeps.1 q (untouched r q w n (owns-idle r.id worker q f)) f,
        ),
        λ q n. elim n [
          | inl e ↦
              subst (λ y. Published y w') (sym e)
                (Keeps-Published r w1 w' keeps (after_record-Published r w m leased))
          | inr k ↦ done q k
        ],
      )
  process_records-Published [] (r ∷ rows) w named u v held = absurd named
  process_records-Published (x ∷ records) [] w named u v held = absurd named

-- ===== src/Outbox/Transitions.antt =====
-- The state machine of one row, and the operations of the repository as steps of it.
use mano_reck.Prelude.{
  ℕ, ◌≤◌, ◌≡◌, inl, inr, refl, Bool, true, false, Bool-cases, [], ◌∷◌, All, Text, ℤ, arith,
}
use mano_reck.Outbox.Row.{Row, Table, Status, published, dead_letter, update_where, has_id}
use mano_reck.Outbox.Rows.{In, UniqueIds}
use mano_reck.Outbox.Schema.{Jsonb, row_checks}
use mano_reck.Outbox.Repository.{claimable, lease_row, owns, publish_row, fail_row}

-- How a row may change: it is leased when it may be claimed, and left by the worker that owns it.
pub data Transition (r r' : Row) : Type 0 where
  unchanged : r' ≡ r → Transition r r'
  leased :
      (now : ℕ) (worker : Text) (lease : ℤ)
      → claimable now r ≡ true
      → r' ≡ lease_row now worker lease r
      → Transition r r'
  acknowledged :
      (now : ℕ) (worker : Text)
      → owns r.id worker r ≡ true
      → r' ≡ publish_row now r
      → Transition r r'
  failed :
      (now : ℕ) (worker class : Text) (max_attempts : ℤ) (next_attempt_at : ℕ) (code : Text)
      → owns r.id worker r ≡ true
      → r' ≡ fail_row now class max_attempts next_attempt_at code r
      → Transition r r'

-- No transition leads out of a state that the schema's CHECK constraints admit.
module _ (operators : Jsonb) where
  lease_row-checks :
      (now : ℕ) (worker : Text) (lease : ℤ) (r : Row)
      → claimable now r ≡ true
      → row_checks operators r ≡ true
      → row_checks operators (lease_row now worker lease r) ≡ true
  unfolding claimable lease_row row_checks
  lease_row-checks now worker lease r c h = ground arith

  publish_row-checks :
      (now : ℕ) (worker : Text) (r : Row)
      → owns r.id worker r ≡ true
      → row_checks operators r ≡ true
      → row_checks operators (publish_row now r) ≡ true
  unfolding owns publish_row row_checks
  publish_row-checks now worker r o h = ground arith

  fail_row-checks :
      (now : ℕ) (worker class : Text) (max_attempts : ℤ) (next : ℕ) (code : Text) (r : Row)
      → owns r.id worker r ≡ true
      → row_checks operators r ≡ true
      → row_checks operators (fail_row now class max_attempts next code r) ≡ true
  unfolding owns fail_row row_checks
  fail_row-checks now worker class max_attempts next code r o h = ground arith

  pub Transition-checks :
      {r r' : Row}
      → Transition r r'
      → row_checks operators r ≡ true
      → row_checks operators r' ≡ true
  Transition-checks (unchanged e) h = rw e h
  Transition-checks (leased now worker lease c e) h = rw e (lease_row-checks now worker lease _ c h)
  Transition-checks (acknowledged now worker o e) h = rw e (publish_row-checks now worker _ o h)
  Transition-checks (failed now worker class max_attempts next code o e) h =
      rw e (fail_row-checks now worker class max_attempts next code _ o h)

-- A published or dead-lettered row never changes.
abbrev pub is_terminal : Status → Bool
is_terminal published = true
is_terminal dead_letter = true
is_terminal _ = false

pub Transition-terminal : {r r' : Row} → Transition r r' → is_terminal r.status ≡ true → r' ≡ r
unfolding claimable owns
Transition-terminal (unchanged e) h = e
Transition-terminal (leased now worker lease c e) h = absurd (ground arith)
Transition-terminal (acknowledged now worker o e) h = absurd (ground arith)
Transition-terminal (failed now worker class max_attempts next code o e) h = absurd (ground arith)

-- The event in a row never changes, nor do attempts get lost.
abbrev pub SameEvent : Row → Row → Type 0
SameEvent r r' =
    (r'.id ≡ r.id)
    × (r'.payload ≡ r.payload)
    × (r'.subject ≡ r.subject)
    × (r'.created_at ≡ r.created_at)
    × (r.attempt_count ≤ r'.attempt_count)

pub Transition-SameEvent : {r r' : Row} → Transition r r' → SameEvent r r'
unfolding lease_row publish_row fail_row
Transition-SameEvent (unchanged e) = rw e (refl, refl, refl, refl, omega arith)
Transition-SameEvent (leased now worker lease c e) = rw e (refl, refl, refl, refl, omega arith)
Transition-SameEvent (acknowledged now worker o e) = rw e (refl, refl, refl, refl, omega arith)
Transition-SameEvent (failed now worker class max_attempts next code o e) =
    rw e (refl, refl, refl, refl, omega arith)

-- A table after an operation, row by row.
abbrev pub Evolves : Table → Table → Type 0
Evolves [] [] = Unit
Evolves [] (r' ∷ rows') = ⊥
Evolves (r ∷ rows) [] = ⊥
Evolves (r ∷ rows) (r' ∷ rows') = Transition r r' × Evolves rows rows'

pub Evolves-refl : (rows : Table) → Evolves rows rows
Evolves-refl [] = tt
Evolves-refl (r ∷ rows) = (unchanged refl, Evolves-refl rows)

pub update_where-Evolves :
    (test : Row → Bool) (change : Row → Row) (rows : Table)
    → ((r : Row) → In r rows → test r ≡ true → Transition r (change r))
    → Evolves rows (update_where test change rows)
unfolding update_where
update_where-Evolves test change [] h = tt
update_where-Evolves test change (r ∷ rows) h = (
  elim (Bool-cases (test r)) [ inl t ↦ rw t (h r (inl refl) t) | inr f ↦ rw f (unchanged refl) ],
  update_where-Evolves test change rows (λ q m. h q (inr m)),
)

pub Evolves-In :
    (rows rows' : Table) (r : Row)
    → Evolves rows rows'
    → In r rows
    → (r' : Row) × In r' rows' × Transition r r'
Evolves-In [] rows' r h m = absurd m
Evolves-In (q ∷ rows) [] r h m = absurd h
Evolves-In (q ∷ rows) (q' ∷ rows') r h (inl e) = (q', inl refl, rw e h.0)
Evolves-In (q ∷ rows) (q' ∷ rows') r h (inr m) =
    let (r', n, t) = Evolves-In rows rows' r h.1 m in (r', inr n, t)

-- Every row passes the CHECK constraints, and no two rows share a key.
abbrev pub IsConsistent : Jsonb → Table → Type 0
IsConsistent operators table = All (λ r. row_checks operators r ≡ true) table × UniqueIds table

Evolves-has_id :
    (id : Text) (rows rows' : Table) → Evolves rows rows' → has_id id rows' ≡ has_id id rows
unfolding has_id
Evolves-has_id id [] [] h = refl
Evolves-has_id id [] (q' ∷ rows') h = absurd h
Evolves-has_id id (q ∷ rows) [] h = absurd h
Evolves-has_id id (q ∷ rows) (q' ∷ rows') h =
    rw ((Transition-SameEvent h.0).0, Evolves-has_id id rows rows' h.1)

pub Evolves-UniqueIds : (rows rows' : Table) → Evolves rows rows' → UniqueIds rows → UniqueIds rows'
Evolves-UniqueIds [] [] h u = u
Evolves-UniqueIds [] (q' ∷ rows') h u = absurd h
Evolves-UniqueIds (q ∷ rows) [] h u = absurd h
Evolves-UniqueIds (q ∷ rows) (q' ∷ rows') h (u, us) = (
  rw ((Transition-SameEvent h.0).0, Evolves-has_id q.id rows rows' h.1) u,
  Evolves-UniqueIds rows rows' h.1 us,
)

pub Evolves-checks :
    (operators : Jsonb) (rows rows' : Table)
    → Evolves rows rows'
    → All (λ r. row_checks operators r ≡ true) rows
    → All (λ r. row_checks operators r ≡ true) rows'
Evolves-checks operators [] [] h k = k
Evolves-checks operators [] (q' ∷ rows') h k = absurd h
Evolves-checks operators (q ∷ rows) [] h k = absurd h
Evolves-checks operators (q ∷ rows) (q' ∷ rows') h (k, ks) =
    (Transition-checks operators h.0 k, Evolves-checks operators rows rows' h.1 ks)

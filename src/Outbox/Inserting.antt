-- ===== src/Outbox/Inserting.antt =====
-- Insert adds a pending row that the schema accepts.
use mano_reck.Prelude.{
  ℕ, ◌<◌, ◌≤◌, ◌≡◌, ◌⊎◌, inl, inr, refl, ap, ◌∙◌, true, false, Bool-cases, Option, none, some, [],
  ◌∷◌, ◌++◌, All, All-map, Text, pos, arith, codes,
}
use mano_reck.GoError.{Error, Result, ok, err}
use mano_reck.GoStrings.{itoa}
use mano_reck.GoStrings.Decimal.{IsDigit, itoa-first}
use mano_reck.Regex.{in_ranges, seq, star, char, plus}
use mano_reck.Regex.Language.{Matches, Matches-seq, Matches-class, one, both}
use mano_reck.Regex.Decides.{match_string_iff}
use mano_reck.Regex.Laws.{Matches-literal, Matches-star_class, All-star, All-seq, All-class}
use mano_reck.Event.{
  Envelope, lower, lower_digit_underscore, event_type_pattern, aggregate_type_pattern, validate,
  subject, subject_text,
}
use mano_reck.Event.Subject.{subject_lem}
use mano_reck.Event.Validate.{IsWellFormed, validate_complete}
use mano_reck.Database.{Outcome, applied, refused, unacknowledged}
use mano_reck.Outbox.Row.{Row, Table, has_id}
use mano_reck.Outbox.Schema.{
  subject_class, subject_tail, subject_pattern, identity_checks, row_checks, Jsonb, fits_integer,
  payload_checks,
}
use mano_reck.Outbox.Repository.{
  Codec, new_row, add_row, insert_row, insert_marshalled, insert_subject, insert_valid, insert,
}

abbrev Admitted : ℕ → Type 0
Admitted c = in_ranges subject_class c ≡ true

lower-Admitted : (c : ℕ) → in_ranges ((b'a', b'z') ∷ []) c ≡ true → Admitted c
lower-Admitted c h = ground arith

word-Admitted :
    (c : ℕ) → in_ranges ((b'a', b'z') ∷ (b'0', b'9') ∷ (b'_', b'_') ∷ []) c ≡ true → Admitted c
word-Admitted c h = ground arith

dot-Admitted : (c : ℕ) → in_ranges ((b'.', b'.') ∷ []) c ≡ true → Admitted c
dot-Admitted c h = ground arith

words-Admitted : (s : Text) → Matches (star lower_digit_underscore) s → All Admitted s
words-Admitted s m = All-star (λ t k. All-class _ word-Admitted k) m

segment-Admitted :
    (s : Text)
    → Matches (seq (char b'.') (seq lower (star lower_digit_underscore))) s
    → All Admitted s
segment-Admitted s m =
    All-seq (λ t k. All-class _ dot-Admitted k)
      (λ t k. All-seq (λ u n. All-class _ lower-Admitted n) words-Admitted k) m

after_first-Admitted :
    (s : Text)
    → Matches
        (seq
          (star lower_digit_underscore)
          (plus (seq (char b'.') (seq lower (star lower_digit_underscore)))))
        s
    → All Admitted s
after_first-Admitted s m =
    All-seq words-Admitted (λ t k. All-seq segment-Admitted (λ u n. All-star segment-Admitted n) k)
      m

digit_class : (c : ℕ) → IsDigit c → in_ranges ((b'0', b'9') ∷ []) c ≡ true
digit_class c h = ground arith

nonzero_class : (c : ℕ) → b'1' ≤ c → c ≤ b'9' → in_ranges ((b'1', b'9') ∷ []) c ≡ true
nonzero_class c h k = ground arith

version-Matches : (n : ℕ) → 0 < n → Matches subject_tail (itoa (pos n))
version-Matches n p =
    let (d, ds, e, lo, hi, rest) = itoa-first n p in
    both (d ∷ []) ds (one d (nonzero_class d lo hi) refl)
      (Matches-star_class _ ds (All-map IsDigit _ ds digit_class rest)) e

-- For an event type of the envelope's pattern and a positive version, the subject matches the pattern
-- of the table's CHECK on subjects.
pub subject-Matches :
    (type : Text) (n : ℕ)
    → Matches event_type_pattern type
    → 0 < n
    → Matches subject_pattern (subject_text type (pos n))
unfolding subject_text
subject-Matches type n m p =
    let (s, t, a, b, e) = Matches-seq m in
    let (c, k, f) = Matches-class a in
    let tail = codes ".v" ++ itoa (pos n) in
    let split : type ≡ c ∷ t = e ∙ ap (λ x. x ++ t) f in
    both (codes "manoreck.events.") (type ++ tail) (Matches-literal (codes "manoreck.events."))
      (both (c ∷ []) (t ++ tail) (one c k refl)
        (both t tail (Matches-star_class subject_class t (after_first-Admitted t b))
          (both (codes ".v") (itoa (pos n)) (Matches-literal (codes ".v")) (version-Matches n p)
            refl)
          refl)
        (ap (λ x. x ++ tail) split))
      refl

module _ (codec : Codec) (now : ℕ) (e : Envelope) (payload : Text) where
  -- The row of a well-formed event passes the CHECK constraints, those on its payload included when
  -- these hold and the version fits its column.
  new_row-checks :
      IsWellFormed e
      → fits_integer e.version ≡ true
      → payload_checks codec.operators (codec.jsonb payload) e.id e.type e.version ≡ true
      → row_checks codec.operators (new_row codec now e (subject_text e.type e.version) payload)
        ≡ true
  unfolding row_checks identity_checks new_row
  new_row-checks w fits identity =
      let (n, same, positive) = w.version in
      let a = (match_string_iff event_type_pattern e.type).1 w.type in
      let b = (match_string_iff aggregate_type_pattern e.aggregate.type).1 w.aggregate_type in
      let c =
        (match_string_iff subject_pattern (subject_text e.type (pos n))).1
          (subject-Matches e.type n w.type positive) in
      rw (same, a, b, c) (ground arith)

-- What Insert may do to the table: nothing, or a new row that the schema admits.
abbrev pub Inserted : Jsonb → Table → Table → Type 0
Inserted operators table table' =
    (table' ≡ table)
    ⊎ ((r : Row) × (table' ≡ r ∷ table)
        × (has_id r.id table ≡ false)
        × (row_checks operators r ≡ true))

add_row-Inserted :
    (operators : Jsonb) (outcome : Outcome) (r : Row) (table : Table)
    → has_id r.id table ≡ false
    → row_checks operators r ≡ true
    → Inserted operators table (add_row outcome r table).0
unfolding add_row
add_row-Inserted operators applied r table fresh good = inr (r, refl, fresh, good)
add_row-Inserted operators (refused e) r table fresh good = inl refl
add_row-Inserted operators (unacknowledged e) r table fresh good = inr (r, refl, fresh, good)

module _ (codec : Codec) where
  insert_row-Inserted :
      (outcome : Outcome) (r : Row) (table : Table)
      → Inserted codec.operators table (insert_row codec outcome r table).0
  unfolding insert_row
  insert_row-Inserted outcome r table = elim (Bool-cases (has_id r.id table)) [
    | inl dup ↦ rw dup (inl refl)
    | inr fresh ↦ rw fresh (elim (Bool-cases (row_checks codec.operators r)) [
      | inr bad ↦ rw bad (inl refl)
      | inl good ↦ rw good (add_row-Inserted codec.operators outcome r table fresh good)
    ])
  ]

  insert_marshalled-Inserted :
      (outcome : Outcome) (now : ℕ) (e : Envelope) (s : Text) (m : Result Text) (table : Table)
      → Inserted codec.operators table (insert_marshalled codec outcome now e s m table).0
  unfolding insert_marshalled
  insert_marshalled-Inserted outcome now e s (err x) table = inl refl
  insert_marshalled-Inserted outcome now e s (ok p) table =
      insert_row-Inserted outcome (new_row codec now e s p) table

  insert_subject-Inserted :
      (outcome : Outcome) (now : ℕ) (e : Envelope) (r : Result Text) (table : Table)
      → Inserted codec.operators table (insert_subject codec outcome now e r table).0
  unfolding insert_subject
  insert_subject-Inserted outcome now e (err x) table = inl refl
  insert_subject-Inserted outcome now e (ok s) table =
      insert_marshalled-Inserted outcome now e s (codec.marshal e) table

  insert_valid-Inserted :
      (outcome : Outcome) (now : ℕ) (e : Envelope) (o : Option Error) (table : Table)
      → Inserted codec.operators table (insert_valid codec outcome now e o table).0
  unfolding insert_valid
  insert_valid-Inserted outcome now e (some x) table = inl refl
  insert_valid-Inserted outcome now e none table =
      insert_subject-Inserted outcome now e (subject e) table

  pub insert-Inserted :
      (outcome : Outcome) (now : ℕ) (e : Envelope) (table : Table)
      → Inserted codec.operators table (insert codec outcome now e table).0
  unfolding insert
  insert-Inserted outcome now e table = insert_valid-Inserted outcome now e (validate e) table

  -- A well-formed event with a fresh identifier and a version that fits its column, whose payload is
  -- encoded as an object that names the event, is
  -- inserted when PostgreSQL applies the statement: as one pending row in front of the old ones, which
  -- satisfies the row constraints of the schema.
  pub insert_accepts :
      (now : ℕ) (e : Envelope) (table : Table) (payload : Text)
      → IsWellFormed e
      → has_id e.id table ≡ false
      → codec.marshal e ≡ ok payload
      → fits_integer e.version ≡ true
      → payload_checks codec.operators (codec.jsonb payload) e.id e.type e.version ≡ true
      → let r = new_row codec now e (subject_text e.type e.version) payload in
        (insert codec applied now e table ≡ (r ∷ table, none))
        × (row_checks codec.operators r ≡ true)
  unfolding insert
  insert_accepts now e table payload w fresh marshalled fits identity =
      let checks = new_row-checks codec now e payload w fits identity in
      (rw (validate_complete e w, subject_lem e w, marshalled, fresh, checks) refl, checks)

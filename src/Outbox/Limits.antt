-- ===== src/Outbox/Limits.antt =====
-- How many rows a claim leases and reads.
use mano_reck.Prelude.{
  ℕ, suc, ◌+◌, ◌≤◌, ◌≡◌, ◌⊎◌, inl, inr, refl, ap, ◌∙◌, Bool, true, false, ◌||◌, Bool-cases, Option,
  none, some, List, [], ◌∷◌, take, Text, text_eq, text_eq→eq, ℤ, length, arith, Option-cases,
}
use mano_reck.GoError.{Error, Result-cases, ok}
use mano_reck.Event.{validate}
use mano_reck.Outbox.Row.{Row, Table, where_rows, update_where, count_where, has_id}
use mano_reck.Outbox.Rows.{UniqueIds, has_id-In}
use mano_reck.Outbox.Marking.{NoneOf, none_updated}
use mano_reck.Outbox.Repository.{
  Codec, Record, Query, query_failed, answered, Interruption, scan_failed, rows_failed, lease_row,
  read_rows, read_answer,
}

pub Query-cases :
    (q : Query)
    → ((x : Error) × (q ≡ query_failed x)) ⊎ ((i : Option Interruption) × (q ≡ answered i))
Query-cases (query_failed x) = inl (x, refl)
Query-cases (answered i) = inr (i, refl)

module _ (codec : Codec) where
  read_rows-length :
      (rows : Table) {records : List Record}
      → read_rows codec rows ≡ ok records
      → length records ≡ length rows
  unfolding read_rows
  read_rows-length [] {records} h = let e : records ≡ [] = cc in rw e refl
  read_rows-length (r ∷ rows) {records} h = elim (Result-cases (codec.unmarshal r.payload)) [
    | inr (x, e) ↦ absurd (ground arith)
    | inl (v, e) ↦ elim (Option-cases (validate v)) [
      | inr (x, bad) ↦ absurd (ground arith)
      | inl good ↦ elim (Result-cases (read_rows codec rows)) [
        | inr (x, k) ↦ absurd (ground arith)
        | inl (l, k) ↦
            let same : records
                ≡ record { envelope = v; subject = r.subject; attempt = r.attempt_count } ∷ l =
              ground arith in
            rw same (ap suc (read_rows-length rows k))
      ]
    ]
  ]

  -- Only an answer that is read to the end gives records.
  pub read_answer-length :
      (i : Option Interruption) (rows : Table) {records : List Record}
      → read_answer codec i rows ≡ ok records
      → length records ≡ length rows
  unfolding read_answer
  read_answer-length none rows h = read_rows-length rows h
  read_answer-length (some (scan_failed n x)) rows h =
      elim (Result-cases (read_rows codec (take n rows))) [
        | inl (l, e) ↦ absurd (ground arith)
        | inr (y, e) ↦ absurd (ground arith)
      ]
  read_answer-length (some (rows_failed n x)) rows h =
      elim (Result-cases (read_rows codec (take n rows))) [
        | inl (l, e) ↦ absurd (ground arith)
        | inr (y, e) ↦ absurd (ground arith)
      ]

selected_length :
    (test : Row → Bool) (change : Row → Row)
    → ((r : Row) → test (change r) ≡ test r)
    → (rows : Table)
    → length (where_rows test (update_where test change rows)) ≡ count_where test rows
unfolding where_rows update_where count_where
selected_length test change keeps [] = refl
selected_length test change keeps (r ∷ rows) = elim (Bool-cases (test r)) [
  | inl t ↦
      let k : test (change r) ≡ true = keeps r ∙ t in
      rw (t, k) (ap suc (selected_length test change keeps rows))
  | inr f ↦ rw (f, f) (selected_length test change keeps rows)
]

-- The rows that are returned are those that the update selects.
pub leased_length :
    (now : ℕ) (worker : Text) (lease : ℤ) (c rows : Table)
    → length (
        where_rows
          (λ r. has_id r.id c)
          (update_where (λ r. has_id r.id c) (lease_row now worker lease) rows))
      ≡ count_where (λ r. has_id r.id c) rows
unfolding lease_row
leased_length now worker lease c rows =
    selected_length (λ r. has_id r.id c) (lease_row now worker lease) (λ r. refl) rows

count_or :
    (p q : Row → Bool) (rows : Table)
    → count_where (λ r. p r || q r) rows ≤ count_where p rows + count_where q rows
unfolding count_where
count_or p q [] = omega arith
count_or p q (r ∷ rows) = ground (arith, count_or p q rows)

count_none : (rows : Table) → count_where (λ r. false) rows ≡ 0
unfolding count_where
count_none [] = refl
count_none (r ∷ rows) = count_none rows

no_key : (id : Text) (rows : Table) → has_id id rows ≡ false → NoneOf (λ r. text_eq id r.id) rows
no_key id rows h r m = elim (Bool-cases (text_eq id r.id)) [
  | inr f ↦ f
  | inl t ↦ cc (h, has_id-In r rows m, ap (λ i. has_id i rows) (text_eq→eq id r.id t))
]

key_once : (id : Text) (rows : Table) → UniqueIds rows → count_where (λ r. text_eq id r.id) rows ≤ 1
unfolding count_where
key_once id [] u = omega arith
key_once id (r ∷ rows) u = elim (Bool-cases (text_eq id r.id)) [
  | inr f ↦ rw f (key_once id rows u.1)
  | inl t ↦
      let fresh : has_id id rows ≡ false = ap (λ i. has_id i rows) (text_eq→eq id r.id t) ∙ u.0 in
      let none_left =
        (none_updated (λ q. text_eq id q.id) (λ q. q) rows (no_key id rows fresh)).1 in
      rw (t, none_left) (omega arith)
]

-- With unique keys a batch names no more rows than it has.
pub chosen_count :
    (rows c : Table) → UniqueIds rows → count_where (λ r. has_id r.id c) rows ≤ length c
unfolding has_id
chosen_count rows [] u = rw (count_none rows) (omega arith)
chosen_count rows (x ∷ c) u = omega (
  arith,
  count_or (λ r. text_eq x.id r.id) (λ r. has_id r.id c) rows,
  key_once x.id rows u,
  chosen_count rows c u,
)

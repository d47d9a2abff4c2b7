-- ===== src/Outbox/Rows.antt =====
-- Membership in the table, unique keys, and what UPDATE does row by row.
use mano_reck.Prelude.{
  ℕ, zero, suc, ◌≡◌, ◌⊎◌, inl, inr, refl, sym, ap, ◌∙◌, Bool, true, false, if◌then◌else◌,
  Bool-cases, [], ◌∷◌, take, Text, text_eq, text_eq→eq, text_eq_refl, arith, subst,
}
use mano_reck.Outbox.Row.{Row, Table, where_rows, update_where, has_id}

abbrev pub In : Row → Table → Type 0
In r [] = ⊥
In r (q ∷ rows) = (r ≡ q) ⊎ In r rows

-- The primary key.
abbrev pub UniqueIds : Table → Type 0
UniqueIds [] = Unit
UniqueIds (r ∷ rows) = (has_id r.id rows ≡ false) × UniqueIds rows

pub has_id-In : (r : Row) (rows : Table) → In r rows → has_id r.id rows ≡ true
unfolding has_id
has_id-In r [] m = absurd m
has_id-In r (q ∷ rows) (inl e) = rw (← e) (ground (arith, text_eq_refl r.id))
has_id-In r (q ∷ rows) (inr m) = ground (arith, has_id-In r rows m)

pub In-has_id :
    (id : Text) (rows : Table) → has_id id rows ≡ true → (r : Row) × In r rows × (r.id ≡ id)
unfolding has_id
In-has_id id [] h = cc
In-has_id id (q ∷ rows) h = elim (Bool-cases (text_eq q.id id)) [
  | inl e ↦ (q, inl refl, text_eq→eq q.id id e)
  | inr n ↦ let (r, m, e) = In-has_id id rows (rw n at h) in (r, inr m, e)
]

-- A row is determined by its key.
pub In-unique :
    (rows : Table) (r q : Row) → UniqueIds rows → In r rows → In q rows → r.id ≡ q.id → r ≡ q
In-unique [] r q u m n e = absurd m
In-unique (x ∷ rows) r q u (inl a) (inl b) e = a ∙ sym b
In-unique (x ∷ rows) r q u (inl a) (inr n) e =
    let same : x.id ≡ q.id = ap (λ (y : Row). y.id) (sym a) ∙ e in
    cc (u.0, has_id-In q rows n, ap (λ i. has_id i rows) same)
In-unique (x ∷ rows) r q u (inr m) (inl b) e =
    let same : x.id ≡ r.id = ap (λ (y : Row). y.id) (sym b) ∙ sym e in
    cc (u.0, has_id-In r rows m, ap (λ i. has_id i rows) same)
In-unique (x ∷ rows) r q u (inr m) (inr n) e = In-unique rows r q u.1 m n e

pub In-where_rows :
    (test : Row → Bool) (rows : Table) (r : Row)
    → In r (where_rows test rows)
    → In r rows × (test r ≡ true)
unfolding where_rows
In-where_rows test [] r m = absurd m
In-where_rows test (q ∷ rows) r m = elim (Bool-cases (test q)) [
  | inl t ↦
      elim (subst (λ b. In r (if b then q ∷ where_rows test rows else where_rows test rows)) t m) [
        | inl e ↦ (inl e, ap test e ∙ t)
        | inr n ↦ let (n', t') = In-where_rows test rows r n in (inr n', t')
      ]
  | inr f ↦
      let n =
        subst (λ b. In r (if b then q ∷ where_rows test rows else where_rows test rows)) f m in
      let (n', t') = In-where_rows test rows r n in (inr n', t')
]

pub where_rows-In :
    (test : Row → Bool) (rows : Table) (r : Row)
    → In r rows
    → test r ≡ true
    → In r (where_rows test rows)
unfolding where_rows
where_rows-In test [] r m t = absurd m
where_rows-In test (q ∷ rows) r (inl e) t = rw (ap test (sym e) ∙ t) (inl e)
where_rows-In test (q ∷ rows) r (inr m) t = elim (Bool-cases (test q)) [
  | inl y ↦ rw y (inr (where_rows-In test rows r m t))
  | inr n ↦ rw n (where_rows-In test rows r m t)
]

pub In-take : (n : ℕ) (rows : Table) (r : Row) → In r (take n rows) → In r rows
In-take zero rows r m = absurd m
In-take (suc n) [] r m = absurd m
In-take (suc n) (q ∷ rows) r (inl e) = inl e
In-take (suc n) (q ∷ rows) r (inr m) = inr (In-take n rows r m)

-- UPDATE, row by row: a row of the new table comes from one of the old.
pub In-update_where :
    (test : Row → Bool) (change : Row → Row) (rows : Table) (r' : Row)
    → In r' (update_where test change rows)
    → (r : Row) × In r rows × (((test r ≡ true) × (r' ≡ change r)) ⊎ ((test r ≡ false) × (r' ≡ r)))
unfolding update_where
In-update_where test change [] r' m = absurd m
In-update_where test change (q ∷ rows) r' (inl e) = elim (Bool-cases (test q)) [
  | inl t ↦ (q, inl refl, inl (t, e ∙ ap (λ b. if b then change q else q) t))
  | inr f ↦ (q, inl refl, inr (f, e ∙ ap (λ b. if b then change q else q) f))
]
In-update_where test change (q ∷ rows) r' (inr m) =
    let (r, n, h) = In-update_where test change rows r' m in (r, inr n, h)

pub update_where-In :
    (test : Row → Bool) (change : Row → Row) (rows : Table) (r : Row)
    → In r rows
    → In (if test r then change r else r) (update_where test change rows)
unfolding update_where
update_where-In test change [] r m = absurd m
update_where-In test change (q ∷ rows) r (inl e) = inl (ap (λ x. if test x then change x else x) e)
update_where-In test change (q ∷ rows) r (inr m) = inr (update_where-In test change rows r m)

module _ (test : Row → Bool) (change : Row → Row) (keeps : (r : Row) → (change r).id ≡ r.id) where
  pub has_id-update_where :
      (id : Text) (rows : Table) → has_id id (update_where test change rows) ≡ has_id id rows
  unfolding has_id update_where
  has_id-update_where id [] = refl
  has_id-update_where id (q ∷ rows) = elim (Bool-cases (test q)) [
    | inl t ↦ rw (t, keeps q, has_id-update_where id rows)
    | inr f ↦ rw (f, has_id-update_where id rows)
  ]

  pub UniqueIds-update_where :
      (rows : Table) → UniqueIds rows → UniqueIds (update_where test change rows)
  unfolding update_where
  UniqueIds-update_where [] u = tt
  UniqueIds-update_where (q ∷ rows) u = elim (Bool-cases (test q)) [
    | inl t ↦ (rw (t, keeps q, has_id-update_where q.id rows) u.0, UniqueIds-update_where rows u.1)
    | inr f ↦ (rw (f, has_id-update_where q.id rows) u.0, UniqueIds-update_where rows u.1)
  ]

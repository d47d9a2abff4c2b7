-- ===== src/Outbox/Age.antt =====
-- `ORDER BY created_at, id` and LIMIT: the sort keeps the rows, and what is cut off is younger.
use mano_reck.Prelude.{
  ℕ, zero, suc, ◌≡◌, ◌⊎◌, inl, inr, refl, ap, true, false, if◌then◌else◌, Bool-cases, [], ◌∷◌, take,
  Text, arith, subst, length,
}
use mano_reck.Outbox.Row.{Row, Table, text_leb, older, insert_by_age, sort_by_age}
use mano_reck.Outbox.Rows.{In}

text_leb-total : (s t : Text) → text_leb s t ≡ false → text_leb t s ≡ true
unfolding text_leb
text_leb-total [] t h = cc
text_leb-total (x ∷ xs) [] h = refl
text_leb-total (x ∷ xs) (y ∷ ys) h = ground (arith, text_leb-total xs ys)

text_leb_trans : (s t u : Text) → text_leb s t ≡ true → text_leb t u ≡ true → text_leb s u ≡ true
unfolding text_leb
text_leb_trans [] t u h k = refl
text_leb_trans (x ∷ xs) [] u h k = cc
text_leb_trans (x ∷ xs) (y ∷ ys) [] h k = cc
text_leb_trans (x ∷ xs) (y ∷ ys) (z ∷ zs) h k = ground (arith, text_leb_trans xs ys zs)

pub older-total : (r q : Row) → older r q ≡ false → older q r ≡ true
unfolding older
older-total r q h = ground (arith, text_leb-total r.id q.id)

pub older_trans : (r q p : Row) → older r q ≡ true → older q p ≡ true → older r p ≡ true
unfolding older
older_trans r q p h k = ground (arith, text_leb_trans r.id q.id p.id)

In-insert_by_age :
    (q : Row) (rows : Table) (r : Row) → In r (insert_by_age q rows) → (r ≡ q) ⊎ In r rows
unfolding insert_by_age
In-insert_by_age q [] r m = m
In-insert_by_age q (x ∷ rows) r m = elim (Bool-cases (older q x)) [
  | inl t ↦ subst (λ b. In r (if b then q ∷ x ∷ rows else x ∷ insert_by_age q rows)) t m
  | inr f ↦ elim (subst (λ b. In r (if b then q ∷ x ∷ rows else x ∷ insert_by_age q rows)) f m) [
    | inl e ↦ inr (inl e)
    | inr n ↦ elim (In-insert_by_age q rows r n) [ inl e ↦ inl e | inr k ↦ inr (inr k) ]
  ]
]

insert_by_age-In :
    (q : Row) (rows : Table) (r : Row) → (r ≡ q) ⊎ In r rows → In r (insert_by_age q rows)
unfolding insert_by_age
insert_by_age-In q [] r m = m
insert_by_age-In q (x ∷ rows) r m = elim (Bool-cases (older q x)) [
  | inl t ↦ rw t m
  | inr f ↦ rw f (elim m [
    | inl e ↦ inr (insert_by_age-In q rows r (inl e))
    | inr (inl e) ↦ inl e
    | inr (inr n) ↦ inr (insert_by_age-In q rows r (inr n))
  ])
]

pub In-sort_by_age : (rows : Table) (r : Row) → In r (sort_by_age rows) → In r rows
unfolding sort_by_age
In-sort_by_age [] r m = m
In-sort_by_age (q ∷ rows) r m = elim (In-insert_by_age q (sort_by_age rows) r m) [
  | inl e ↦ inl e
  | inr n ↦ inr (In-sort_by_age rows r n)
]

pub sort_by_age-In : (rows : Table) (r : Row) → In r rows → In r (sort_by_age rows)
unfolding sort_by_age
sort_by_age-In [] r m = m
sort_by_age-In (q ∷ rows) r (inl e) = insert_by_age-In q (sort_by_age rows) r (inl e)
sort_by_age-In (q ∷ rows) r (inr n) =
    insert_by_age-In q (sort_by_age rows) r (inr (sort_by_age-In rows r n))

-- Each row is older than all behind it.
abbrev IsSorted : Table → Type 0
IsSorted [] = Unit
IsSorted (r ∷ rows) = ((q : Row) → In q rows → older r q ≡ true) × IsSorted rows

insert_by_age-IsSorted : (q : Row) (rows : Table) → IsSorted rows → IsSorted (insert_by_age q rows)
unfolding insert_by_age
insert_by_age-IsSorted q [] h = (λ r m. absurd m, tt)
insert_by_age-IsSorted q (x ∷ rows) h = elim (Bool-cases (older q x)) [
  | inl t ↦ rw t (λ r m. elim m [ inl e ↦ rw e t | inr n ↦ older_trans q x r t (h.0 r n) ], h)
  | inr f ↦ rw f (
    λ r m. elim (In-insert_by_age q rows r m) [
      | inl e ↦ rw e (older-total q x f)
      | inr n ↦ h.0 r n
    ],
    insert_by_age-IsSorted q rows h.1,
  )
]

sort_by_age-IsSorted : (rows : Table) → IsSorted (sort_by_age rows)
unfolding sort_by_age
sort_by_age-IsSorted [] = tt
sort_by_age-IsSorted (q ∷ rows) =
    insert_by_age-IsSorted q (sort_by_age rows) (sort_by_age-IsSorted rows)

-- A row that the limit cuts off a sorted table is younger than every row within the limit, and the
-- limit is used up.
abbrev pub Cut : ℕ → Table → Row → Type 0
Cut n rows q =
    In q (take n rows)
    ⊎ ((length (take n rows) ≡ n) × ((c : Row) → In c (take n rows) → older c q ≡ true))

Cut-sorted : (n : ℕ) (rows : Table) (q : Row) → IsSorted rows → In q rows → Cut n rows q
Cut-sorted zero rows q s m = inr (refl, λ c k. absurd k)
Cut-sorted (suc n) [] q s m = absurd m
Cut-sorted (suc n) (x ∷ rows) q s (inl e) = inl (inl e)
Cut-sorted (suc n) (x ∷ rows) q s (inr m) = elim (Cut-sorted n rows q s.1 m) [
  | inl i ↦ inl (inr i)
  | inr (full, first) ↦
      inr (ap suc full, λ c k. elim k [ inl e ↦ rw e (s.0 q m) | inr k' ↦ first c k' ])
]

pub oldest_first : (n : ℕ) (rows : Table) (q : Row) → In q rows → Cut n (sort_by_age rows) q
oldest_first n rows q m =
    Cut-sorted n (sort_by_age rows) q (sort_by_age-IsSorted rows) (sort_by_age-In rows q m)

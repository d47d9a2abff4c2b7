-- ===== src/Database/Transaction.antt =====
-- InTransaction: the operation's writes are kept whole or dropped whole, and its error is reported.
use mano_reck.Prelude.{
  ◌≡◌, ◌⊎◌, refl, ap, true, Option, none, some, inl, inr, Option-cases, Bool-cases,
}
use mano_reck.GoError.{Error, Sentinel, Result, ok, err, errors_is}
use mano_reck.Database.{
  Database, TxOutcomes, Outcome, applied, refused, unacknowledged, finish, roll_back, after_begin,
  after_pool, in_transaction, pool,
}

-- What a result says about the operation: a success is the operation's own, committed; otherwise
-- the store is the old one, or the commit's confirmation was lost.
abbrev pub Atomic {ℓ κ} :
    {S : Type ℓ} {A : Type κ} → TxOutcomes → S → S × Result A → S × Result A → Type (ℓ ⊔ κ)
Atomic outcomes s left (t, ok a) = (left ≡ (t, ok a)) × (outcomes.commit ≡ applied)
Atomic {A} outcomes s left (t, err e) =
    (t ≡ s) ⊎ ((a : A) × (left ≡ (t, ok a)) × (x : Error) × (outcomes.commit ≡ unacknowledged x))

module _ {ℓ κ} {S : Type ℓ} {A : Type κ} where
  finish-Atomic :
      (outcomes : TxOutcomes) (o : Outcome) (s s' : S) (r : Result A)
      → outcomes.commit ≡ o
      → Atomic outcomes s (s', r) (finish outcomes s s' r)
  unfolding finish roll_back
  finish-Atomic outcomes applied s s' (ok a) e = rw e (refl, refl)
  finish-Atomic outcomes (refused x) s s' (ok a) e = rw e (inl refl)
  finish-Atomic outcomes (unacknowledged x) s s' (ok a) e = rw e (inr (a, refl, x, refl))
  finish-Atomic outcomes o s s' (err x) e = elim (Option-cases outcomes.rollback) [
    | inl p ↦ rw p (inl refl)
    | inr (y, p) ↦ rw p (elim (Bool-cases (errors_is y Sentinel.tx_closed)) [
      | inl t ↦ rw t (inl refl)
      | inr f ↦ rw f (inl refl)
    ])
  ]

  -- Whatever the pool, the operation and the outcomes: a success means that the operation succeeded
  -- and that its store was committed; on an error the store is the one before the transaction, unless
  -- the operation succeeded and only the confirmation of its commit was lost.
  pub in_transaction-Atomic :
      (database : Database) (outcomes : TxOutcomes) (operation : S → S × Result A) (s : S)
      → Atomic outcomes s (operation s) (in_transaction database outcomes (some operation) s)
  unfolding in_transaction
  in_transaction-Atomic database outcomes operation s =
      (elim (pool database)
        as (λ p. Atomic outcomes s (operation s) (after_pool outcomes operation s p)) [
          | some e ↦ inl refl
          | none ↦
              (elim outcomes.begin
                as (λ b. Atomic outcomes s (operation s) (after_begin outcomes operation s b)) [
                  | some e ↦ inl refl
                  | none ↦
                      finish-Atomic outcomes outcomes.commit s (operation s).0 (operation s).1 refl
                ])
        ])

roll_back_reports {ℓ} :
    {A : Type ℓ} (o : Option Error) (e : Error) (k : Sentinel)
    → errors_is e k ≡ true
    → (x : Error) × (roll_back {A = A} o e ≡ err x) × (errors_is x k ≡ true)
unfolding roll_back errors_is
roll_back_reports none e k found = (e, refl, found)
roll_back_reports (some r) e k found = elim (Bool-cases (errors_is r Sentinel.tx_closed)) [
  | inl t ↦ rw t (e, refl, found)
  | inr f ↦ rw f (_, refl, rw found refl)
]

-- The operation's own error can be found in what InTransaction returns, also when the rollback
-- failed, and the store is as before.
pub in_transaction_reports {ℓ κ} :
    {S : Type ℓ} {A : Type κ} (database : Database) (outcomes : TxOutcomes)
    (operation : S → S × Result A) (s : S) {s' : S} {e : Error} (k : Sentinel)
    → pool database ≡ none
    → outcomes.begin ≡ none
    → operation s ≡ (s', err e)
    → errors_is e k ≡ true
    → (x : Error) × (in_transaction database outcomes (some operation) s ≡ (s, err x))
      × (errors_is x k ≡ true)
unfolding in_transaction finish
in_transaction_reports {A} database outcomes operation s {e} k opened begun failed found =
    let (x, same, inside) = roll_back_reports {A = A} outcomes.rollback e k found in
    (x, rw (opened, begun, failed, in_transaction) (ap (λ r. (s, r)) same), inside)

-- What holds of the old store and of the operation's store holds of the store in the end.
module _ {ℓ κ μ} {S : Type ℓ} {A : Type κ} (P : S → Type μ) where
  kept_by_finish :
      (outcomes : TxOutcomes) (o : Outcome) (s s' : S) (r : Result A)
      → outcomes.commit ≡ o
      → P s
      → P s'
      → P (finish outcomes s s' r).0
  unfolding finish
  kept_by_finish outcomes applied s s' (ok a) e p q = rw e q
  kept_by_finish outcomes (refused x) s s' (ok a) e p q = rw e p
  kept_by_finish outcomes (unacknowledged x) s s' (ok a) e p q = rw e q
  kept_by_finish outcomes o s s' (err x) e p q = p

  pub in_transaction_keeps :
      (database : Database) (outcomes : TxOutcomes) (operation : S → S × Result A) (s : S)
      → P s
      → P (operation s).0
      → P (in_transaction database outcomes (some operation) s).0
  unfolding in_transaction
  in_transaction_keeps database outcomes operation s p q =
      (elim (pool database) as (λ o. P (after_pool outcomes operation s o).0) [
        | some e ↦ p
        | none ↦ (elim outcomes.begin as (λ b. P (after_begin outcomes operation s b).0) [
          | some e ↦ p
          | none ↦
              kept_by_finish outcomes outcomes.commit s (operation s).0 (operation s).1 refl p q
        ])
      ])

-- On an open pool, with a transaction that begins and commits, a successful operation is kept.
pub in_transaction-commits {ℓ κ} :
    {S : Type ℓ} {A : Type κ} (database : Database) (outcomes : TxOutcomes)
    (operation : S → S × Result A) (s s' : S) (a : A)
    → pool database ≡ none
    → outcomes.begin ≡ none
    → outcomes.commit ≡ applied
    → operation s ≡ (s', ok a)
    → in_transaction database outcomes (some operation) s ≡ (s', ok a)
unfolding in_transaction after_pool after_begin finish
in_transaction-commits {S = S} {A = A} database outcomes operation s s' a opened begun committed e =
    rw (in_transaction, opened, after_begin, begun, e, finish, committed)
      (ap (λ (p : S × Result A). (p.0, ok a)) e)

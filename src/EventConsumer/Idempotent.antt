-- ===== src/EventConsumer/Idempotent.antt =====
-- One durable record for an event however often it is delivered, and replies that tell the truth.
use mano_reck.Prelude.{
  ℕ, ◌≡◌, inl, inr, refl, ap, true, false, Bool-cases, Option, none, some, List, [], ◌∷◌, Text,
  text_eq_refl, arith, subst, codes,
}
use mano_reck.GoError.{Error, Result, ok, err}
use mano_reck.Event.{Envelope}
use mano_reck.Database.{TxOutcomes, in_transaction}
use mano_reck.Database.Transaction.{in_transaction-Atomic, Atomic}
use mano_reck.EventConsumer.{
  infrastructure_consumer, Consumption, new_consumption, letter_of, has_consumption,
  record_consumption, Message, Reply, State, Surroundings, dead_letter, after_transaction, consume,
}

-- The primary key of platform.event_consumptions.
abbrev pub UniqueKeys : List Consumption → Type 0
UniqueKeys [] = Unit
UniqueKeys (r ∷ rows) = (has_consumption r.consumer_name r.event_id rows ≡ false) × UniqueKeys rows

pub record_consumption-UniqueKeys :
    (failure : Option Error) (e : Envelope) (n : ℕ) (rows : List Consumption)
    → UniqueKeys rows
    → UniqueKeys (record_consumption failure e n rows).0
unfolding record_consumption
record_consumption-UniqueKeys (some x) e n rows u = u
record_consumption-UniqueKeys none e n rows u =
    elim (Bool-cases (has_consumption infrastructure_consumer e.id rows)) [
      | inl old ↦ rw old u
      | inr new ↦ rw new (new, u)
    ]

has_consumption-cons :
    (c : Consumption) (rows : List Consumption)
    → has_consumption c.consumer_name c.event_id (c ∷ rows) ≡ true
unfolding has_consumption
has_consumption-cons c rows = ground (arith, text_eq_refl c.consumer_name, text_eq_refl c.event_id)

record_consumption-records :
    (failure : Option Error) (e : Envelope) (n : ℕ) (rows : List Consumption)
    → (record_consumption failure e n rows).1 ≡ ok tt
    → has_consumption infrastructure_consumer e.id (record_consumption failure e n rows).0 ≡ true
unfolding record_consumption
record_consumption-records (some x) e n rows h = cc
record_consumption-records none e n rows h =
    elim (Bool-cases (has_consumption infrastructure_consumer e.id rows)) [
      | inl old ↦ rw old old
      | inr new ↦ rw new (has_consumption-cons (new_consumption e n) rows)
    ]

pub record_consumption-again :
    (failure : Option Error) (e : Envelope) (n : ℕ) (rows : List Consumption)
    → has_consumption infrastructure_consumer e.id rows ≡ true
    → (record_consumption failure e n rows).0 ≡ rows
unfolding record_consumption
record_consumption-again (some x) e n rows old = refl
record_consumption-again none e n rows old = rw old refl

module _ (env : Surroundings) where
  -- Dead-lettering touches no consumption, and ends a message only with its letter stored.
  pub consumptions-dead_letter :
      (m : Message) (id : Text) (n : ℕ) (reason : Text) (s : State)
      → (dead_letter env m id n reason s).consumptions ≡ s.consumptions
  unfolding dead_letter
  consumptions-dead_letter m id n reason s = ground arith

  pub dead_letter-reply :
      (m : Message) (id : Text) (n : ℕ) (reason : Text) (s : State)
      → s.reply ≡ none
      → (dead_letter env m id n reason s).reply ≡ some Reply.term
      → (dead_letter env m id n reason s).dead_letters
        ≡ letter_of env m id n reason ∷ s.dead_letters
  unfolding dead_letter
  dead_letter-reply m id n reason s fresh h = ground arith

  pub dead_letter-no_ack :
      (m : Message) (id : Text) (n : ℕ) (reason : Text) (s : State)
      → s.reply ≡ none
      → ¬ ((dead_letter env m id n reason s).reply ≡ some Reply.ack)
  unfolding dead_letter
  dead_letter-no_ack m id n reason s fresh h = ground arith

  pub consumptions-after_transaction :
      (m : Message) (e : Envelope) (n : ℕ) (r : Result (Unit {0})) (s : State)
      → (after_transaction env m e n r s).consumptions ≡ s.consumptions
  unfolding after_transaction
  consumptions-after_transaction m e n (ok x) s = ground arith
  consumptions-after_transaction m e n (err x) s = ground arith

  after_transaction-ack :
      (m : Message) (e : Envelope) (n : ℕ) (r : Result (Unit {0})) (s : State)
      → s.reply ≡ none
      → (after_transaction env m e n r s).reply ≡ some Reply.ack
      → r ≡ ok tt
  unfolding after_transaction
  after_transaction-ack m e n (ok x) s fresh h = refl
  after_transaction-ack m e n (err x) s fresh h =
      ground (arith, dead_letter-no_ack m e.id n (codes "consumer_processing_failed") s fresh)

  Atomic-success :
      (outcomes : TxOutcomes) (rows : List Consumption)
      (left r : List Consumption × Result (Unit {0}))
      → Atomic outcomes rows left r
      → r.1 ≡ ok tt
      → left ≡ (r.0, ok tt)
  Atomic-success outcomes rows left (t, ok tt) (e, _) h = e
  Atomic-success outcomes rows left (t, err x) a h = cc

  -- A committed consumption is recorded.
  transaction-records :
      (e : Envelope) (n : ℕ) (rows : List Consumption)
      → (in_transaction env.database env.outcomes
          (some (record_consumption env.statement e n))
          rows).1
        ≡ ok tt
      → has_consumption infrastructure_consumer e.id
          (in_transaction env.database env.outcomes
            (some (record_consumption env.statement e n))
            rows).0
        ≡ true
  transaction-records e n rows h =
      let left =
        Atomic-success env.outcomes rows (record_consumption env.statement e n rows)
          (in_transaction env.database env.outcomes (some (record_consumption env.statement e n))
            rows)
          (in_transaction-Atomic env.database env.outcomes (record_consumption env.statement e n)
            rows)
          h in
      subst (λ t. has_consumption infrastructure_consumer e.id t ≡ true) (ap (λ p. p.0) left)
        (record_consumption-records env.statement e n rows (ap (λ p. p.1) left))

  pub consume-ack :
      (m : Message) (e : Envelope) (n : ℕ) (s : State)
      → s.reply ≡ none
      → (consume env m e n s).reply ≡ some Reply.ack
      → has_consumption infrastructure_consumer e.id (consume env m e n s).consumptions ≡ true
  unfolding consume
  consume-ack m e n s fresh h =
      let t =
        in_transaction env.database env.outcomes (some (record_consumption env.statement e n))
          s.consumptions in
      let s' : State = record s { consumptions = t.0 } in
      rw (consumptions-after_transaction m e n t.1 s')
        (transaction-records e n s.consumptions (after_transaction-ack m e n t.1 s' fresh h))

-- ===== src/EventConsumer/Replies.antt =====
-- What a reply to JetStream says.
use mano_reck.Prelude.{
  ℕ, ◌≡◌, ◌≢◌, ◌⊎◌, leb, Option-cases, inl, inr, refl, true, Bool-cases, Option, none, some, [],
  ◌∷◌, Text, arith, codes,
}
use mano_reck.GoError.{Error, wrapf, Result, ok, err}
use mano_reck.Event.{Envelope, validate}
use mano_reck.Database.{in_transaction}
use mano_reck.EventConsumer.{
  infrastructure_consumer, max_deliveries, dead_letter, publish_dead_letter, after_dead_letter,
  letter_of, has_consumption, record_consumption, Message, Reply, State, Surroundings,
  after_transaction, consume, after_decode, process,
}
use mano_reck.EventConsumer.Idempotent.{dead_letter-reply, dead_letter-no_ack, consume-ack}

-- The event that a message carries was accepted and is recorded.
abbrev pub IsConsumed : Surroundings → Message → State → Type 0
IsConsumed env m s =
    ((env.unmarshal m.body).1 ≡ none)
    × (validate (env.unmarshal m.body).0 ≡ none)
    × (has_consumption infrastructure_consumer (env.unmarshal m.body).0.id s.consumptions ≡ true)

-- The newest dead letter is the one of this message.
abbrev pub IsDeadLettered : Surroundings → Message → State → State → Type 0
IsDeadLettered env m before after =
    (id : Text) × (n : ℕ) × (reason : Text) × (after.dead_letters
      ≡ letter_of env m id n reason ∷ before.dead_letters)

module _ (env : Surroundings) where
  after_decode-ack :
      (m : Message) (e : Envelope) (n : ℕ) (failure invalid : Option Error) (s : State)
      → s.reply ≡ none
      → (after_decode env m e n failure invalid s).reply ≡ some Reply.ack
      → (failure ≡ none)
        × (invalid ≡ none)
        × (has_consumption infrastructure_consumer e.id
              (after_decode env m e n failure invalid s).consumptions
            ≡ true)
  unfolding after_decode
  after_decode-ack m e n none none s fresh h = (refl, refl, consume-ack env m e n s fresh h)
  after_decode-ack m e n none (some x) s fresh h =
      absurd (dead_letter-no_ack env m e.id n (codes "invalid_event_envelope") s fresh h)
  after_decode-ack m e n (some x) none s fresh h =
      absurd (dead_letter-no_ack env m e.id n (codes "invalid_event_envelope") s fresh h)
  after_decode-ack m e n (some x) (some y) s fresh h =
      absurd (dead_letter-no_ack env m e.id n (codes "invalid_event_envelope") s fresh h)

  -- A message is acknowledged only when it decodes, its envelope is valid, and its event is recorded
  -- among the consumptions of the consumer.
  pub process-ack :
      (m : Message) (s : State)
      → (process env m s).reply ≡ some Reply.ack
      → IsConsumed env m (process env m s)
  unfolding process
  process-ack m s h =
      let n : ℕ = elim m.num_delivered [ none ↦ 1 | some k ↦ k ] in
      let u = env.unmarshal m.body in
      after_decode-ack m u.0 n u.1 (validate u.0) (record s { reply = none }) refl h

  failed-term :
      (m : Message) (e : Envelope) (n : ℕ) (x : Error) (s : State)
      → s.reply ≡ none
      → (after_transaction env m e n (err x) s).reply ≡ some Reply.term
      → (after_transaction env m e n (err x) s).dead_letters
        ≡ letter_of env m e.id n (codes "consumer_processing_failed") ∷ s.dead_letters
  unfolding after_transaction
  failed-term m e n x s fresh h =
      ground (arith, dead_letter-reply env m e.id n (codes "consumer_processing_failed") s fresh)

  not_term :
      (m : Message) (e : Envelope) (n : ℕ) (s : State)
      → s.reply ≡ none
      → ¬ ((after_transaction env m e n (ok tt) s).reply ≡ some Reply.term)
  unfolding after_transaction
  not_term m e n s fresh h = ground arith

  after_transaction-term :
      (m : Message) (e : Envelope) (n : ℕ) (r : Result (Unit {0})) (s : State)
      → s.reply ≡ none
      → (after_transaction env m e n r s).reply ≡ some Reply.term
      → IsDeadLettered env m s (after_transaction env m e n r s)
  after_transaction-term m e n (ok tt) s fresh h = absurd (not_term m e n s fresh h)
  after_transaction-term m e n (err x) s fresh h =
      (e.id, n, codes "consumer_processing_failed", failed-term m e n x s fresh h)

  after_decode-term :
      (m : Message) (e : Envelope) (n : ℕ) (failure invalid : Option Error) (s : State)
      → s.reply ≡ none
      → (after_decode env m e n failure invalid s).reply ≡ some Reply.term
      → IsDeadLettered env m s (after_decode env m e n failure invalid s)
  unfolding after_decode consume
  after_decode-term m e n none none s fresh h =
      let t =
        in_transaction env.database env.outcomes (some (record_consumption env.statement e n))
          s.consumptions in
      after_transaction-term m e n t.1 (record s { consumptions = t.0 }) fresh h
  after_decode-term m e n none (some x) s fresh h = (
    e.id,
    n,
    codes "invalid_event_envelope",
    dead_letter-reply env m e.id n (codes "invalid_event_envelope") s fresh h,
  )
  after_decode-term m e n (some x) none s fresh h = (
    e.id,
    n,
    codes "invalid_event_envelope",
    dead_letter-reply env m e.id n (codes "invalid_event_envelope") s fresh h,
  )
  after_decode-term m e n (some x) (some y) s fresh h = (
    e.id,
    n,
    codes "invalid_event_envelope",
    dead_letter-reply env m e.id n (codes "invalid_event_envelope") s fresh h,
  )

  -- A message is terminated only when a dead letter made from it was stored, on top of those that
  -- were there.
  pub process-term :
      (m : Message) (s : State)
      → (process env m s).reply ≡ some Reply.term
      → IsDeadLettered env m s (process env m s)
  unfolding process
  process-term m s h =
      let n : ℕ = elim m.num_delivered [ none ↦ 1 | some k ↦ k ] in
      let u = env.unmarshal m.body in
      after_decode-term m u.0 n u.1 (validate u.0) (record s { reply = none }) refl h

  -- JetStream got a reply, or the consumer holds an error.
  abbrev pub IsAnswered : State → Type 0
  IsAnswered s = (s.reply ≢ none) ⊎ ((e : Error) × (s.last_error ≡ some e))

  replied_some : {r : Reply} → some r ≢ none
  replied_some h = absurd (ground (arith, h))

  after_dead_letter-IsAnswered :
      (o : Option Error) (s : State) → IsAnswered (after_dead_letter env o s)
  unfolding after_dead_letter
  after_dead_letter-IsAnswered (some e) s = elim (Option-cases env.nak_error) [
    | inl p ↦ rw p (inl replied_some)
    | inr (x, p) ↦ rw p (inr (wrapf "publish consumer dead letter: %w" [] e, refl))
  ]
  after_dead_letter-IsAnswered none s = elim (Option-cases env.term_error) [
    | inl p ↦ rw p (inl replied_some)
    | inr (x, p) ↦ rw p (inr (wrapf "terminate dead-lettered event: %w" [] x, refl))
  ]

  dead_letter-IsAnswered :
      (m : Message) (id : Text) (n : ℕ) (reason : Text) (s : State)
      → IsAnswered (dead_letter env m id n reason s)
  unfolding dead_letter
  dead_letter-IsAnswered m id n reason s =
      let (s', failure) = publish_dead_letter env (letter_of env m id n reason) s in
      after_dead_letter-IsAnswered failure s'

  after_transaction-IsAnswered :
      (m : Message) (e : Envelope) (n : ℕ) (r : Result (Unit {0})) (s : State)
      → IsAnswered (after_transaction env m e n r s)
  unfolding after_transaction
  after_transaction-IsAnswered m e n (ok tt) s = elim (Option-cases env.ack_error) [
    | inl p ↦ rw p (inl replied_some)
    | inr (x, p) ↦ rw p (inr (wrapf "acknowledge event: %w" [] x, refl))
  ]
  after_transaction-IsAnswered m e n (err x) s = elim (Bool-cases (leb max_deliveries n)) [
    | inl t ↦
        rw (after_transaction, t)
          (dead_letter-IsAnswered m e.id n (codes "consumer_processing_failed") s)
    | inr f ↦ elim (Option-cases env.nak_error) [
      | inl p ↦ rw (after_transaction, f, p) (inl replied_some)
      | inr (y, p) ↦ rw (after_transaction, f, p) (inr (_, refl))
    ]
  ]

  after_decode-IsAnswered :
      (m : Message) (e : Envelope) (n : ℕ) (failure invalid : Option Error) (s : State)
      → IsAnswered (after_decode env m e n failure invalid s)
  unfolding after_decode consume
  after_decode-IsAnswered m e n none none s =
      let t =
        in_transaction env.database env.outcomes (some (record_consumption env.statement e n))
          s.consumptions in
      after_transaction-IsAnswered m e n t.1 (record s { consumptions = t.0 })
  after_decode-IsAnswered m e n none (some x) s =
      dead_letter-IsAnswered m e.id n (codes "invalid_event_envelope") s
  after_decode-IsAnswered m e n (some x) none s =
      dead_letter-IsAnswered m e.id n (codes "invalid_event_envelope") s
  after_decode-IsAnswered m e n (some x) (some y) s =
      dead_letter-IsAnswered m e.id n (codes "invalid_event_envelope") s

  -- After any message either JetStream got a reply for it, or the consumer holds an error, which its
  -- readiness check can report.
  pub process-IsAnswered : (m : Message) (s : State) → IsAnswered (process env m s)
  unfolding process
  process-IsAnswered m s =
      let n : ℕ = elim m.num_delivered [ none ↦ 1 | some k ↦ k ] in
      let u = env.unmarshal m.body in
      after_decode-IsAnswered m u.0 n u.1 (validate u.0) (record s { reply = none })

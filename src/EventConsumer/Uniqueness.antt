-- ===== src/EventConsumer/Uniqueness.antt =====
-- At most one consumption for an event, over every run.
use mano_reck.Prelude.{
  ℕ, ◌≡◌, inl, inr, refl, sym, ◌∙◌, true, ◌||◌, Bool-cases, Option, none, some, List, [], ◌∷◌,
  subst, codes,
}
use mano_reck.GoError.{Error, Sentinel, errors_is}
use mano_reck.Event.{Envelope, validate}
use mano_reck.Database.{in_transaction}
use mano_reck.Database.Transaction.{in_transaction_keeps}
use mano_reck.EventConsumer.{
  infrastructure_consumer, Consumption, has_consumption, record_consumption, Message, State,
  Surroundings, consume, after_decode, process, process_messages, Fetched, messages, failed,
  run_pass, run,
}
use mano_reck.EventConsumer.Idempotent.{
  UniqueKeys, record_consumption-UniqueKeys, record_consumption-again, consumptions-dead_letter,
  consumptions-after_transaction,
}

-- What processing a message may do to the consumptions, for any property of them that recording keeps.
module _ {ℓ} (P : List Consumption → Type ℓ) where
  after_decode_keeps :
      (env : Surroundings) (m : Message) (e : Envelope) (n : ℕ) (failure invalid : Option Error)
      (s : State)
      → ((rows : List Consumption) → P rows → P (record_consumption env.statement e n rows).0)
      → P s.consumptions
      → P (after_decode env m e n failure invalid s).consumptions
  unfolding after_decode consume
  after_decode_keeps env m e n none none s step p =
      let t =
        in_transaction env.database env.outcomes (some (record_consumption env.statement e n))
          s.consumptions in
      rw (consumptions-after_transaction env m e n t.1 (record s { consumptions = t.0 })) (
        in_transaction_keeps P env.database env.outcomes (record_consumption env.statement e n)
          s.consumptions p (step s.consumptions p))
  after_decode_keeps env m e n none (some x) s step p =
      rw (consumptions-dead_letter env m e.id n (codes "invalid_event_envelope") s) p
  after_decode_keeps env m e n (some x) none s step p =
      rw (consumptions-dead_letter env m e.id n (codes "invalid_event_envelope") s) p
  after_decode_keeps env m e n (some x) (some y) s step p =
      rw (consumptions-dead_letter env m e.id n (codes "invalid_event_envelope") s) p

  process_keeps :
      (env : Surroundings) (m : Message) (s : State)
      → ((n : ℕ) (rows : List Consumption)
          → P rows
          → P (record_consumption env.statement (env.unmarshal m.body).0 n rows).0)
      → P s.consumptions
      → P (process env m s).consumptions
  unfolding process
  process_keeps env m s step p =
      let n : ℕ = elim m.num_delivered [ none ↦ 1 | some k ↦ k ] in
      let u = env.unmarshal m.body in
      after_decode_keeps env m u.0 n u.1 (validate u.0) (record s { reply = none }) (step n) p

-- An event that is recorded already leaves the consumptions as they are, however it is processed.
pub process-again :
    (env : Surroundings) (m : Message) (s : State)
    → has_consumption infrastructure_consumer (env.unmarshal m.body).0.id s.consumptions ≡ true
    → (process env m s).consumptions ≡ s.consumptions
process-again env m s old =
    process_keeps (λ rows. rows ≡ s.consumptions) env m s
      (λ n rows same.
        record_consumption-again env.statement (env.unmarshal m.body).0 n rows (
          subst (λ t. has_consumption infrastructure_consumer (env.unmarshal m.body).0.id t ≡ true)
            (sym same) old)
        ∙ same)
      refl

process_messages-UniqueKeys :
    (l : List (Surroundings × Message)) (s : State)
    → UniqueKeys s.consumptions
    → UniqueKeys (process_messages l s).consumptions
unfolding process_messages
process_messages-UniqueKeys [] s u = u
process_messages-UniqueKeys ((env, m) ∷ l) s u = process_messages-UniqueKeys l (process env m s) (
    process_keeps UniqueKeys env m s
      (λ n rows. record_consumption-UniqueKeys env.statement (env.unmarshal m.body).0 n rows) u)

run_pass-UniqueKeys :
    (p : Fetched) (s : State) → UniqueKeys s.consumptions → UniqueKeys (run_pass p s).consumptions
unfolding run_pass
run_pass-UniqueKeys (messages l) s u =
    process_messages-UniqueKeys l (record s { last_error = none }) u
run_pass-UniqueKeys (failed e) s u =
    elim (Bool-cases (errors_is e Sentinel.nats_timeout || errors_is e Sentinel.canceled)) [
      | inl t ↦ rw t u
      | inr f ↦ rw f u
    ]

-- Over any passes of the consumer, with any messages, redeliveries, failures and transaction
-- outcomes, each pair of consumer and event keeps at most one consumption.
pub run-UniqueKeys :
    (passes : List Fetched) (s : State)
    → UniqueKeys s.consumptions
    → UniqueKeys (run passes s).consumptions
unfolding run
run-UniqueKeys [] s u = u
run-UniqueKeys (pass ∷ passes) s u =
    run-UniqueKeys passes (run_pass pass s) (run_pass-UniqueKeys pass s u)

-- ===== src/EventConsumer.antt =====
-- backend/internal/platform/eventconsumer/consumer.go: the durable consumer of the proof event, with
-- the table platform.event_consumptions that makes it idempotent.
pub mod Backoff
pub mod Idempotent
pub mod Replies
pub mod Uniqueness
pub mod Subscription
pub mod Delays
pub mod Consumptions
use mano_reck.Prelude.{
  ℕ, zero, suc, ◌-◌, ◌*◌, Bool, true, false, not, ◌&&◌, ◌||◌, leb, if◌then◌else◌, Option, none,
  some, List, [], ◌∷◌, Text, text_eq, codes, ℤ, pos, ltb_ℤ, double64,
}
use mano_reck.GoError.{Error, Sentinel, errorf, wrapf, errors_is, errors_join, Result, ok, err}
use mano_reck.Event.{Envelope, validate}
use mano_reck.Database.{
  Database, TxOutcomes, Outcome, applied, refused, unacknowledged, in_transaction,
}
pub use Delays.{infrastructure_consumer, max_deliveries, second, minute}
unfoldable pub use Delays.{redelivery_loop, redelivery_backoff}
pub use Consumptions.{new_consumption, Consumption}
unfoldable pub use Consumptions.{has_consumption, record_consumption}

-- The representation that deadLetter publishes.
pub record DeadLetter : Type 0 where
  pub consumer : Text
  pub event_id : Text
  pub subject : Text
  pub delivery_count : ℕ
  pub reason_code : Text
  pub payload_hash : Text
  pub failed_at : ℕ

-- A message; its metadata may be missing, and holds the number of deliveries.
pub record Message : Type 0 where
  pub subject : Text
  pub body : Text
  pub num_delivered : Option ℕ

-- What JetStream is told of a message.
pub data Reply : Type 0 where
  ack term : Reply
  nak_with_delay : ℤ → Reply

-- The consumer's stores, its last error, and the reply that the message got.
pub record State : Type 0 where
  pub consumptions : List Consumption
  pub dead_letters : List DeadLetter
  pub last_error : Option Error
  pub reply : Option Reply

-- The surroundings of one call: what json.Unmarshal leaves and reports, the database, the errors of
-- Ack, NakWithDelay and Term, and what publishing a dead letter comes to. `sha256` is in hexadecimal.
pub record Surroundings : Type 0 where
  pub unmarshal : Text → Envelope × Option Error
  pub database : Database
  pub outcomes : TxOutcomes
  pub statement : Option Error
  pub ack_error : Option Error
  pub nak_error : Option Error
  pub term_error : Option Error
  pub marshal_error : Option Error
  pub jet_stream_error : Option Error
  pub dead_letter_outcome : Outcome
  pub sha256 : Text → Text
  pub clock : ℕ

-- A reply reaches JetStream unless the call reports an error.
abbrev pub replied : Option Error → Reply → State → State
replied none reply s = record s { reply = some reply }
replied (some e) reply s = s

module _ (env : Surroundings) where
  abbrev pub letter_of : Message → Text → ℕ → Text → DeadLetter
  letter_of message event_id delivery_count reason = record {
    consumer = infrastructure_consumer;
    event_id = event_id;
    subject = message.subject;
    delivery_count = delivery_count;
    reason_code = reason;
    payload_hash = env.sha256 message.body;
    failed_at = env.clock;
  }

  -- Publishing the dead letter: the store, and the error.
  unfoldable pub publish_dead_letter : DeadLetter → State → State × Option Error
  publish_dead_letter letter s = elim env.marshal_error [
    | some e ↦ (s, some e)
    | none ↦ elim env.jet_stream_error [
      | some e ↦ (s, some e)
      | none ↦ elim env.dead_letter_outcome [
        | applied ↦ (record s { dead_letters = letter ∷ s.dead_letters }, none)
        | refused e ↦ (s, some e)
        | unacknowledged e ↦ (record s { dead_letters = letter ∷ s.dead_letters }, some e)
      ]
    ]
  ]

  -- The end of deadLetter.
  unfoldable pub after_dead_letter : Option Error → State → State
  after_dead_letter (some e) s =
      replied env.nak_error (Reply.nak_with_delay (pos minute))
        (record s { last_error = some (wrapf "publish consumer dead letter: %w" [] e) })
  after_dead_letter none s = elim env.term_error [
    | some e ↦ record s { last_error = some (wrapf "terminate dead-lettered event: %w" [] e) }
    | none ↦ record s { reply = some Reply.term }
  ]

  unfoldable pub dead_letter : Message → Text → ℕ → Text → State → State
  unfolding publish_dead_letter after_dead_letter
  dead_letter message event_id delivery_count reason s =
      let (s', failure) =
        publish_dead_letter (letter_of message event_id delivery_count reason) s in
      after_dead_letter failure s'

  -- The end of process, after the transaction.
  unfoldable pub after_transaction : Message → Envelope → ℕ → Result (Unit {0}) → State → State
  unfolding dead_letter redelivery_backoff
  after_transaction message envelope delivery_count (ok _) s = elim env.ack_error [
    | some e ↦ record s { last_error = some (wrapf "acknowledge event: %w" [] e) }
    | none ↦ record s { reply = some Reply.ack }
  ]
  after_transaction message envelope delivery_count (err e) s =
      if leb max_deliveries delivery_count
      then dead_letter message envelope.id delivery_count (codes "consumer_processing_failed") s
      else elim env.nak_error [
        | some n ↦ record s { last_error = errors_join (some e ∷ some n ∷ []) }
        | none ↦ record s {
          last_error = some e;
          reply = some (Reply.nak_with_delay (redelivery_backoff delivery_count));
        }
      ]

  unfoldable pub consume : Message → Envelope → ℕ → State → State
  unfolding after_transaction record_consumption
  consume message envelope delivery_count s =
      let (rows, result) =
        in_transaction env.database env.outcomes
          (some (record_consumption env.statement envelope delivery_count)) s.consumptions in
      after_transaction message envelope delivery_count result (record s { consumptions = rows })

  -- process after json.Unmarshal and Validate.
  unfoldable pub after_decode : Message → Envelope → ℕ → Option Error → Option Error → State → State
  unfolding consume dead_letter
  after_decode message envelope delivery_count none none s =
      consume message envelope delivery_count s
  after_decode message envelope delivery_count _ _ s =
      dead_letter message envelope.id delivery_count (codes "invalid_event_envelope") s

  unfoldable pub process : Message → State → State
  unfolding after_decode
  process message s =
      let delivery_count : ℕ = elim message.num_delivered [ none ↦ 1 | some n ↦ n ] in
      let (envelope, failure) = env.unmarshal message.body in
      after_decode message envelope delivery_count failure (validate envelope)
        (record s { reply = none })

-- ensureConsumer: the errors of ConsumerInfo, AddConsumer and UpdateConsumer.
unfoldable pub ensure_consumer : Option Error → Option Error → Option Error → Option Error
ensure_consumer none add update = elim update [
  | none ↦ none
  | some e ↦ some (wrapf "update infrastructure consumer: %w" [] e)
]
ensure_consumer (some info) add update =
    if not (errors_is info Sentinel.consumer_not_found)
    then some (wrapf "inspect infrastructure consumer: %w" [] info)
    else elim add [ none ↦ none | some e ↦ some (wrapf "create infrastructure consumer: %w" [] e) ]

-- One fetched batch of run: each message with its surroundings.
unfoldable pub process_messages : List (Surroundings × Message) → State → State
unfolding process
process_messages [] s = s
process_messages ((env, message) ∷ messages) s = process_messages messages (process env message s)

-- What Fetch returned; run handles it in one pass of its loop.
pub data Fetched : Type 0 where
  messages : List (Surroundings × Message) → Fetched
  failed : Error → Fetched

unfoldable pub run_pass : Fetched → State → State
unfolding process_messages
run_pass (messages l) s = process_messages l (record s { last_error = none })
run_pass (failed e) s =
    if errors_is e Sentinel.nats_timeout || errors_is e Sentinel.canceled
    then record s { last_error = none }
    else record s { last_error = some e }

-- run, over the passes until the context ends.
unfoldable pub run : List Fetched → State → State
unfolding run_pass
run [] s = s
run (pass ∷ passes) s = run passes (run_pass pass s)

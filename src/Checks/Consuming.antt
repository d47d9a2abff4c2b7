-- ===== src/Checks/Consuming.antt =====
-- The consumer at concrete inputs.
use mano_reck.Prelude.{◌-◌, ◌*◌, ◌^◌, ◌≡◌, refl, true, none, some, [], ◌∷◌, codes, pos, text_eq}
use Prim.Native.Nat.{min}
use mano_reck.Identifier.{is_uuidv7, is_lower_hex}
use mano_reck.Regex.{match_string}
use mano_reck.GoStrings.{trim_space}
use mano_reck.Json.{valid}
use mano_reck.Event.{validate, is_json_object}
use mano_reck.Database.{applied, in_transaction}
use mano_reck.EventConsumer.{
  second, minute, redelivery_backoff, Message, Reply, State, Surroundings, messages, process, run,
  new_consumption, has_consumption, infrastructure_consumer,
}
use mano_reck.EventConsumer.Backoff.{redelivery_backoff-eq-min}
use mano_reck.EventConsumer.Idempotent.{UniqueKeys}
use mano_reck.EventConsumer.Replies.{
  IsConsumed, IsDeadLettered, process-ack, process-term, IsAnswered, process-IsAnswered,
}
use mano_reck.EventConsumer.Uniqueness.{process-again, run-UniqueKeys}
use mano_reck.Checks.Fixtures.{envelope, database, outcomes, failure}

abbrev message : Message
message = record {
  subject = codes "manoreck.events.platform.probe.v1";
  body = codes "{}";
  num_delivered = some 2;
}

abbrev surroundings : Surroundings
surroundings = record {
  unmarshal = λ body. (envelope, none);
  database = database;
  outcomes = outcomes;
  statement = none;
  ack_error = none;
  nak_error = none;
  term_error = none;
  marshal_error = none;
  jet_stream_error = none;
  dead_letter_outcome = applied;
  sha256 = λ body. body;
  clock = 7;
}

abbrev garbled : Surroundings
garbled = record surroundings { unmarshal = λ body. (envelope, some failure) }

abbrev empty : State
empty = record { consumptions = []; dead_letters = []; last_error = none; reply = none }

abbrev seen : State
seen = record empty { consumptions = new_consumption envelope 1 ∷ [] }

redelivery_backoff-eq-min_example : redelivery_backoff 4 ≡ pos (min minute (second * 2 ^ (4 - 1)))
redelivery_backoff-eq-min_example = redelivery_backoff-eq-min 4

acknowledged : (process surroundings message empty).reply ≡ some Reply.ack
unfolding process validate is_uuidv7 is_lower_hex match_string is_json_object trim_space valid
    in_transaction
acknowledged = refl

process-ack_example : IsConsumed surroundings message (process surroundings message empty)
process-ack_example = process-ack surroundings message empty acknowledged

terminated : (process garbled message empty).reply ≡ some Reply.term
unfolding process
terminated = refl

process-term_example : IsDeadLettered garbled message empty (process garbled message empty)
process-term_example = process-term garbled message empty terminated

known : has_consumption infrastructure_consumer envelope.id seen.consumptions ≡ true
unfolding has_consumption text_eq
known = refl

process-again_example : (process surroundings message seen).consumptions ≡ seen.consumptions
process-again_example = process-again surroundings message seen known

run-UniqueKeys_example :
    UniqueKeys
      (run
        (messages ((surroundings, message) ∷ (surroundings, message) ∷ []) ∷ [])
        empty).consumptions
run-UniqueKeys_example =
    run-UniqueKeys (messages ((surroundings, message) ∷ (surroundings, message) ∷ []) ∷ []) empty tt

abbrev unreachable : Surroundings
unreachable = record garbled { jet_stream_error = some failure; nak_error = some failure }

process-IsAnswered_example : IsAnswered unreachable (process unreachable message empty)
process-IsAnswered_example = process-IsAnswered unreachable message empty

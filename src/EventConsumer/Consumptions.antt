-- ===== src/EventConsumer/Consumptions.antt =====
-- platform.event_consumptions, and the INSERT of Consumer.process.
use mano_reck.Prelude.{
  ℕ, Bool, false, ◌&&◌, ◌||◌, if◌then◌else◌, Option, none, some, List, [], ◌∷◌, Text, text_eq,
}
use mano_reck.GoError.{Error, Result, ok, err}
use mano_reck.Event.{Envelope}
use mano_reck.EventConsumer.Delays.{infrastructure_consumer}

-- A row of platform.event_consumptions.
pub record Consumption : Type 0 where
  pub consumer_name : Text
  pub event_id : Text
  pub event_type : Text
  pub delivery_count : ℕ

unfoldable pub has_consumption : Text → Text → List Consumption → Bool
has_consumption consumer id [] = false
has_consumption consumer id (r ∷ rows) =
    (text_eq r.consumer_name consumer && text_eq r.event_id id) || has_consumption consumer id rows

abbrev pub new_consumption : Envelope → ℕ → Consumption
new_consumption envelope delivery_count = record {
  consumer_name = infrastructure_consumer;
  event_id = envelope.id;
  event_type = envelope.type;
  delivery_count = delivery_count;
}

-- INSERT … ON CONFLICT (consumer_name, event_id) DO NOTHING, inside the transaction; `failure` is
-- what else the statement may report, a failed CHECK included.
unfoldable pub record_consumption :
    Option Error → Envelope → ℕ → List Consumption → List Consumption × Result (Unit {0})
unfolding has_consumption
record_consumption (some e) envelope delivery_count rows = (rows, err e)
record_consumption none envelope delivery_count rows =
    if has_consumption infrastructure_consumer envelope.id rows
    then (rows, ok tt)
    else (new_consumption envelope delivery_count ∷ rows, ok tt)

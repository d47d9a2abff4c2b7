-- ===== src/EventConsumer/Subscription.antt =====
-- The lifecycle of the consumer: Start, Check and Close of
-- backend/internal/platform/eventconsumer/consumer.go.
use mano_reck.Prelude.{ℕ, ◌+◌, ◌-◌, Bool, true, false, if◌then◌else◌, Option, none, some, []}
use mano_reck.GoError.{Error, errorf, wrapf, Result, ok, err}
use mano_reck.Natsclient
use mano_reck.EventConsumer.{ensure_consumer}

-- `started` tells that the fields cancel, done and subscription are set, which happens together.
-- `running` counts the workers that Start has begun and Close has not cancelled, `stopping` those
-- cancelled that had not ended when Close returned, and `subscriptions` the local bindings. `durable`
-- tells that Start has created or updated the consumer of the server, which outlives them.
pub record Consumer : Type 0 where
  pub started : Bool
  pub last_error : Option Error
  pub running : ℕ
  pub stopping : ℕ
  pub subscriptions : ℕ
  pub durable : Bool

-- The errors of ConsumerInfo, AddConsumer, UpdateConsumer and PullSubscribe.
pub record Topology : Type 0 where
  pub info : Option Error
  pub add : Option Error
  pub update : Option Error
  pub subscribe : Option Error

abbrev pub idle_consumer : Consumer
idle_consumer = record {
  started = false;
  last_error = none;
  running = 0;
  stopping = 0;
  subscriptions = 0;
  durable = false;
}

-- New; `missing` tells that an argument is nil.
unfoldable pub new : Bool → Result Consumer
new missing =
    if missing
    then err (errorf "event consumer database, NATS client, and logger are required" [])
    else ok idle_consumer

-- Start from PullSubscribe on.
unfoldable pub bind : Option Error → Consumer → Consumer × Option Error
bind (some e) consumer = (consumer, some (wrapf "bind infrastructure proof consumer: %w" [] e))
bind none consumer = (
  record consumer {
    started = true;
    running = consumer.running + 1;
    subscriptions = consumer.subscriptions + 1;
  },
  none,
)

-- Start; the goroutine that it starts is `run`.
unfoldable pub start : Natsclient.Client → Topology → Consumer → Consumer × Option Error
unfolding bind ensure_consumer Natsclient.jet_stream_error
start client topology consumer =
    if consumer.started
    then (consumer, some (errorf "event consumer has already started" []))
    else elim (Natsclient.jet_stream_error client) [
      | some e ↦ (consumer, some e)
      | none ↦ elim (ensure_consumer topology.info topology.add topology.update) [
        | some e ↦ (consumer, some e)
        | none ↦ bind topology.subscribe (record consumer { durable = true })
      ]
    ]

unfoldable pub check : Consumer → Option Error
check consumer =
    if consumer.started
    then consumer.last_error
    else some (errorf "event consumer is not started" [])

-- Close after cancel() and Unsubscribe: the worker ends, or the deadline passes first.
abbrev pub await_worker : Option Error → Consumer → Consumer × Option Error
await_worker none consumer = (consumer, none)
await_worker (some e) consumer = (
  record consumer { stopping = consumer.stopping + 1 },
  some (wrapf "stop event consumer: %w" [] e),
)

-- Close; `expired` is the context's error where its deadline passed before the worker ended.
unfoldable pub close : Option Error → Consumer → Consumer × Option Error
close expired consumer =
    if consumer.started
    then await_worker expired (record consumer {
      started = false;
      running = consumer.running - 1;
      subscriptions = consumer.subscriptions - 1;
    })
    else (consumer, none)

-- ===== src/Process/Opened.antt =====
-- What of a runtime is open, and that each component of it closes what it opens.
use mano_reck.Prelude.{ℕ, Bool, Option, none, some, if◌then◌else◌, All, arith}
use mano_reck.GoError.{Error, Sentinel, errors_is}
use mano_reck.Natsclient.{Drain, drained, expired}
use mano_reck.Natsclient
use mano_reck.Database
use mano_reck.Redisclient
use mano_reck.Objectstorage
use mano_reck.Outbox.Relay
use mano_reck.EventConsumer.Subscription.{Consumer, Topology, bind}
use mano_reck.EventConsumer.Subscription
use mano_reck.Dependency.Lifecycle.{IsUndoneUnder}
use mano_reck.Process.Components.{
  Runtime, Outcomes, database_part, nats_part, redis_part, objects_part, consumer_part, relay_part,
  wired,
}

-- What is open: the pools, the connections, the subscriptions, and the workers, those that are not
-- cancelled and those that are and have not ended.
pub record Opened : Type 0 where
  pub database : Bool
  pub nats : Bool
  pub connections : ℕ
  pub redis : Bool
  pub objects : Bool
  pub consumer : Bool
  pub subscriptions : ℕ
  pub consumer_running : ℕ
  pub consumer_stopping : ℕ
  pub relay : Bool
  pub relay_running : ℕ
  pub relay_stopping : ℕ

-- A count that Close answers for only when it reports no error.
abbrev pub unless : Option Error → ℕ → ℕ
unless none n = n
unless (some e) n = 0

-- The same where Drain reports an error other than ErrConnectionClosed.
abbrev pub unless_drain : Drain → ℕ → ℕ
unless_drain (drained none) n = n
unless_drain (drained (some e)) n = if errors_is e Sentinel.connection_closed then n else 0
unless_drain (expired e) n = n

abbrev pub opened : Outcomes → Runtime → Opened
opened o w = record {
  database = w.database.pool_open;
  nats = w.nats.connected;
  connections = unless_drain o.drain w.nats.connections;
  redis = w.redis.started;
  objects = w.objects.started;
  consumer = w.consumer.started;
  subscriptions = w.consumer.subscriptions;
  consumer_running = w.consumer.running;
  consumer_stopping = unless o.consumer_expired w.consumer.stopping;
  relay = w.relay.started;
  relay_running = w.relay.running;
  relay_stopping = unless o.relay_expired w.relay.stopping;
}

database_part-IsUndoneUnder : (o : Outcomes) → IsUndoneUnder (opened o) (database_part o)
unfolding Database.start Database.close
database_part-IsUndoneUnder o = record {
  respects = λ x y h. ground arith;
  undone = λ w h. ground arith;
  failed = λ w e h. ground arith;
}

nats_part-IsUndoneUnder : (o : Outcomes) → IsUndoneUnder (opened o) (nats_part o)
unfolding Natsclient.start Natsclient.close
nats_part-IsUndoneUnder o = record {
  respects = λ x y h. ground arith;
  undone = λ w h. ground arith;
  failed = λ w e h. ground arith;
}

redis_part-IsUndoneUnder : (o : Outcomes) → IsUndoneUnder (opened o) (redis_part o)
unfolding Redisclient.start Redisclient.close
redis_part-IsUndoneUnder o = record {
  respects = λ x y h. ground arith;
  undone = λ w h. ground arith;
  failed = λ w e h. ground arith;
}

objects_part-IsUndoneUnder : (o : Outcomes) → IsUndoneUnder (opened o) (objects_part o)
unfolding Objectstorage.start Objectstorage.close
objects_part-IsUndoneUnder o = record {
  respects = λ x y h. ground arith;
  undone = λ w h. ground arith;
  failed = λ w e h. ground arith;
}

consumer_part-IsUndoneUnder : (o : Outcomes) → IsUndoneUnder (opened o) (consumer_part o)
unfolding Subscription.start Subscription.close bind
consumer_part-IsUndoneUnder o = record {
  respects = λ x y h. ground arith;
  undone = λ w h. ground arith;
  failed = λ w e h. ground arith;
}

relay_part-IsUndoneUnder : (o : Outcomes) → IsUndoneUnder (opened o) (relay_part o)
unfolding Relay.start Relay.close
relay_part-IsUndoneUnder o = record {
  respects = λ x y h. ground arith;
  undone = λ w h. ground arith;
  failed = λ w e h. ground arith;
}

pub wired-IsUndoneUnder : (o : Outcomes) → All (IsUndoneUnder (opened o)) (wired o)
wired-IsUndoneUnder o = (
  database_part-IsUndoneUnder o,
  (
    nats_part-IsUndoneUnder o,
    (
      redis_part-IsUndoneUnder o,
      (
        objects_part-IsUndoneUnder o,
        (consumer_part-IsUndoneUnder o, (relay_part-IsUndoneUnder o, tt)),
      ),
    ),
  ),
)

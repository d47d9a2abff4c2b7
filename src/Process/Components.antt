-- ===== src/Process/Components.antt =====
-- The six components of the process over one runtime, in the order of main.
use mano_reck.Prelude.{Bool, Option, List, [], ◌∷◌, Text, codes}
use mano_reck.GoError.{Error, Result}
use mano_reck.Database.{Database}
use mano_reck.Natsclient.{Drain}
use mano_reck.Natsclient
use mano_reck.Redisclient
use mano_reck.Objectstorage
use mano_reck.Outbox.Relay.{Relay}
use mano_reck.EventConsumer.Subscription.{Consumer, Topology}
use mano_reck.Dependency.{Component}
use mano_reck.Dependency.Workers.{database_component, relay_component, consumer_component}

pub record Runtime : Type 0 where
  pub database : Database
  pub nats : Natsclient.Client
  pub redis : Redisclient.Client
  pub objects : Objectstorage.Store
  pub consumer : Consumer
  pub relay : Relay

-- What the calls of the libraries in Start, Check and Close come to.
pub record Outcomes : Type 0 where
  pub parse_database : Text → Option Error
  pub create_pool : Option Error
  pub ping_database : Option Error
  pub connect : Option Error
  pub jet_stream : Option Error
  pub ensure_stream : Option Error
  pub is_connected : Bool
  pub flush : Option Error
  pub stream_info : Option Error
  pub drain : Drain
  pub ping_redis : Option Error
  pub close_redis : Option Error
  pub construct_objects : Option Error
  pub bucket_at_start : Result Bool
  pub make_bucket : Option Error
  pub bucket_at_check : Result Bool
  pub topology : Topology
  pub consumer_expired : Option Error
  pub relay_expired : Option Error

abbrev pub nats_component : Outcomes → Component Natsclient.Client
nats_component o = record {
  name = codes "nats";
  start = Natsclient.start o.connect o.jet_stream o.ensure_stream;
  check = Natsclient.check o.is_connected o.flush o.stream_info;
  close = Natsclient.close o.drain;
}

abbrev pub redis_component : Outcomes → Component Redisclient.Client
redis_component o = record {
  name = codes "redis";
  start = Redisclient.start;
  check = Redisclient.check o.ping_redis;
  close = Redisclient.close o.close_redis;
}

abbrev pub objects_component : Outcomes → Component Objectstorage.Store
objects_component o = record {
  name = codes "object-storage";
  start = Objectstorage.start o.construct_objects o.bucket_at_start o.make_bucket;
  check = Objectstorage.check o.bucket_at_check;
  close = Objectstorage.close;
}

-- A component of a part of the runtime, which may read the rest of it.
abbrev pub lifted {ℓ} :
    {A : Type ℓ}
    → Text
    → (Runtime → A)
    → (A → Runtime → Runtime)
    → (Runtime → Component A)
    → Component Runtime
lifted name part put component = record {
  name = name;
  start = λ w. let (a, failure) = (component w).start (part w) in (put a w, failure);
  check = λ w. (component w).check (part w);
  close = λ w. let (a, failure) = (component w).close (part w) in (put a w, failure);
}

abbrev pub database_part : Outcomes → Component Runtime
database_part o =
    lifted (codes "postgres") (λ w. w.database) (λ a w. record w { database = a })
      (λ w. database_component o.parse_database o.create_pool o.ping_database)

abbrev pub nats_part : Outcomes → Component Runtime
nats_part o =
    lifted (codes "nats") (λ w. w.nats) (λ a w. record w { nats = a }) (λ w. nats_component o)

abbrev pub redis_part : Outcomes → Component Runtime
redis_part o =
    lifted (codes "redis") (λ w. w.redis) (λ a w. record w { redis = a }) (λ w. redis_component o)

abbrev pub objects_part : Outcomes → Component Runtime
objects_part o =
    lifted (codes "object-storage") (λ w. w.objects) (λ a w. record w { objects = a })
      (λ w. objects_component o)

abbrev pub consumer_part : Outcomes → Component Runtime
consumer_part o =
    lifted (codes "event-consumer") (λ w. w.consumer) (λ a w. record w { consumer = a })
      (λ w. consumer_component w.nats o.topology o.consumer_expired)

abbrev pub relay_part : Outcomes → Component Runtime
relay_part o =
    lifted (codes "outbox-relay") (λ w. w.relay) (λ a w. record w { relay = a })
      (λ w. relay_component o.relay_expired)

-- The list that main passes to NewSet.
abbrev pub wired : Outcomes → List (Component Runtime)
wired o =
    database_part o
    ∷ nats_part o
    ∷ redis_part o
    ∷ objects_part o
    ∷ consumer_part o
    ∷ relay_part o
    ∷ []

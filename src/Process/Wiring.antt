-- ===== src/Process/Wiring.antt =====
-- What the constructors ask for and what Load promises agree.
use mano_reck.Prelude.{
  Option, Option-cases, inl, inr, ◌↔◌, ◌≡◌, refl, false, none, some, [], Text, text_eq, ℤ, pos,
  leb_ℤ, map, arith,
}
use mano_reck.GoError.{Error, Result, ok, err, bind_ok}
use mano_reck.Config.Address.{Url}
use mano_reck.Config.Values.{second}
use mano_reck.Config.Load.{Config}
use mano_reck.Config.Numbers.{Scaled}
use mano_reck.Config.Ranges.{IsValid}
use mano_reck.EventConsumer.Subscription.{idle_consumer}
use mano_reck.EventConsumer.Subscription
use mano_reck.Database
use mano_reck.Natsclient
use mano_reck.Redisclient
use mano_reck.Objectstorage
use mano_reck.Outbox.Relay
use mano_reck.Httpserver
use mano_reck.Dependency.{Set, new_set, check_names, has_name}
use mano_reck.Process.{
  Libraries, Configured, configure, database_config, redis_config, objects_config, relay_config,
}
use mano_reck.Process.Components.{Outcomes, Runtime, wired}
use mano_reck.Process.Accepting.{
  Database-accepts, Natsclient-accepts, Redisclient-accepts, Objectstorage-accepts, Relay-accepts,
}

-- What only the libraries decide: pgxpool.ParseConfig, redis.ParseURL and CheckValidBucketNameStrict
-- take the addresses and the bucket, and NewUUIDv7 makes an identifier.
pub record Accepted (libraries : Libraries) (fresh : Result Text) (c : Config) : Type 0 where
  pub database : libraries.parse_database c.database.url.reveal ≡ none
  pub redis : libraries.parse_redis c.redis.url.reveal ≡ none
  pub bucket : libraries.check_bucket c.object_storage.bucket ≡ none
  pub worker : (id : Text) × (fresh ≡ ok id)

new_set-wired :
    (o : Outcomes) (timeout : ℤ)
    → leb_ℤ timeout (pos 0) ≡ false
    → (set : Set Runtime) × (new_set timeout (map some (wired o)) ≡ ok set)
unfolding new_set check_names has_name text_eq
new_set-wired o timeout h = (
  record { components = wired o; timeout = timeout; active = false; started = 0 },
  rw (new_set, h) refl,
)

positive : (v : ℤ) → Scaled second 1 60 v → leb_ℤ v (pos 0) ≡ false
positive v (n, e, a, b) = rw e (ground arith)

configure-accepts :
    (libraries : Libraries) (o : Outcomes) (fresh : Result Text) (configuration : Config)
    → IsValid libraries.net configuration
    → ((u : Url) → libraries.net.parse_url [] ≡ ok u → u.host ≡ [])
    → Accepted libraries fresh configuration
    → (c : Configured) × (configure libraries o fresh configuration ≡ ok c)
unfolding configure Subscription.new
configure-accepts libraries o fresh configuration v empty a =
    let net = libraries.net in
    let (id, made) = a.worker in
    let (d, e1) =
      Database-accepts net libraries.parse_database configuration.database v.database a.database in
    let (n, e2) = Natsclient-accepts net configuration.nats.reveal v.nats empty in
    let (r, e3) =
      Redisclient-accepts net libraries.parse_redis configuration.redis v.redis a.redis in
    let (s, e4) =
      Objectstorage-accepts net libraries.check_bucket configuration.object_storage v.object_storage
        a.bucket in
    let (w, e5) = Relay-accepts net configuration.outbox id v.outbox in
    let (set, e6) =
      new_set-wired o configuration.http.readiness_timeout
        (positive configuration.http.readiness_timeout v.http.readiness) in
    (
      record {
        runtime = record {
          database = d;
          nats = n;
          redis = r;
          objects = s;
          consumer = idle_consumer;
          relay = w;
        };
        dependencies = set;
        server = Httpserver.new configuration.http.http_address;
      },
      rw (configure, made, e1, e2, e3, e4, e5, e6) refl,
    )

Database-asks :
    (parse : Text → Option Error) (c : Database.Config) (d : Database.Database)
    → Database.new parse c ≡ ok d
    → parse c.connection_string ≡ none
unfolding Database.new
Database-asks parse c d h = elim (Option-cases (parse c.connection_string)) [
  | inl p ↦ p
  | inr (x, p) ↦ absurd (ground arith)
]

Redisclient-asks :
    (parse : Text → Option Error) (c : Redisclient.Config) (r : Redisclient.Client)
    → Redisclient.new parse c ≡ ok r
    → parse c.url ≡ none
unfolding Redisclient.new
Redisclient-asks parse c r h = elim (Option-cases (parse c.url)) [
  | inl p ↦ p
  | inr (x, p) ↦ absurd (ground arith)
]

Objectstorage-asks :
    (check_bucket : Text → Option Error) (c : Objectstorage.Config) (url : Result Url)
    (s : Objectstorage.Store)
    → Objectstorage.new_at check_bucket c url ≡ ok s
    → check_bucket c.bucket ≡ none
unfolding Objectstorage.new_at
Objectstorage-asks check_bucket c (err e) s h = absurd (ground arith)
Objectstorage-asks check_bucket c (ok url) s h = elim (Option-cases (check_bucket c.bucket)) [
  | inl p ↦ p
  | inr (x, p) ↦ absurd (ground arith)
]

Relay-asks :
    (c : Relay.RelayConfig) (fresh : Result Text) (r : Relay.Relay)
    → Relay.new_relay false c fresh ≡ ok r
    → (id : Text) × (fresh ≡ ok id)
unfolding Relay.new_relay
Relay-asks c (ok id) r h = (id, refl)
Relay-asks c (err e) r h = absurd (ground arith)

-- What is wired was accepted.
configure-asks :
    (libraries : Libraries) (o : Outcomes) (fresh : Result Text) (configuration : Config)
    (c : Configured)
    → configure libraries o fresh configuration ≡ ok c
    → Accepted libraries fresh configuration
unfolding configure Objectstorage.new
configure-asks libraries o fresh configuration c h =
    let (d, e1, h1) =
      bind_ok (Database.new libraries.parse_database (database_config configuration.database)) _
        h in
    let (n, e2, h2) = bind_ok (Natsclient.new configuration.nats.reveal) _ h1 in
    let (r, e3, h3) =
      bind_ok (Redisclient.new libraries.parse_redis (redis_config configuration.redis)) _ h2 in
    let (s, e4, h4) =
      bind_ok
        (Objectstorage.new libraries.net libraries.check_bucket
          (objects_config configuration.object_storage))
        _ h3 in
    let (w, e5, h5) =
      bind_ok (Relay.new_relay false (relay_config configuration.outbox) fresh) _ h4 in
    record {
      database =
          Database-asks libraries.parse_database (database_config configuration.database) d e1;
      redis = Redisclient-asks libraries.parse_redis (redis_config configuration.redis) r e3;
      bucket =
          Objectstorage-asks libraries.check_bucket (objects_config configuration.object_storage)
            (libraries.net.parse_url configuration.object_storage.endpoint) s e4;
      worker = Relay-asks (relay_config configuration.outbox) fresh w e5;
    }

-- For a configuration that is valid as Load promises, where an empty text has no host as a URL: the
-- wiring of main succeeds exactly when pgxpool.ParseConfig accepts the database's address, redis.ParseURL
-- that of Redis, CheckValidBucketNameStrict the bucket, and NewUUIDv7 makes an identifier. Every other
-- test of the constructors and of NewSet is one that a valid configuration passes.
pub configure_iff :
    (libraries : Libraries) (o : Outcomes) (fresh : Result Text) (configuration : Config)
    → IsValid libraries.net configuration
    → ((u : Url) → libraries.net.parse_url [] ≡ ok u → u.host ≡ [])
    → ((c : Configured) × (configure libraries o fresh configuration ≡ ok c))
      ↔ Accepted libraries fresh configuration
configure_iff libraries o fresh configuration v empty = (
  λ (c, h). configure-asks libraries o fresh configuration c h,
  configure-accepts libraries o fresh configuration v empty,
)

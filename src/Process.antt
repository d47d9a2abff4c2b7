-- ===== src/Process.antt =====
-- backend/cmd/api/main.go: the configuration wired into the components, and the process. What it logs
-- is left out.
pub mod Components
pub mod Opened
pub mod Closing
pub mod Accepting
pub mod Wiring
use mano_reck.Prelude.{
  ℕ, ◌==◌, Bool, true, false, ◌&&◌, if◌then◌else◌, Option, none, some, List, [], ◌∷◌, Text, text_eq,
  codes, length,
}
use mano_reck.GoError.{Error, Result, ok, err, ◌>>=◌}
use mano_reck.Config.Address.{Net}
use mano_reck.Config.Values.{LookupEnv}
use mano_reck.Config.Load.{
  Config, DatabaseConfig, OutboxConfig, RedisConfig, ObjectStorageConfig, load,
}
use mano_reck.Database
use mano_reck.Natsclient
use mano_reck.Redisclient
use mano_reck.Objectstorage
use mano_reck.Outbox.Relay.{RelayConfig}
use mano_reck.Outbox.Relay
use mano_reck.EventConsumer.Subscription
use mano_reck.Dependency.{Set, new_set}
use mano_reck.Healthcheck
use mano_reck.Httpserver.{Server}
use mano_reck.Httpserver
use mano_reck.Appruntime.{Wake, run}
use mathlib.Core.List.{map}
use mano_reck.Process.Components.{Runtime, Outcomes, wired}

-- pgxpool.ParseConfig, redis.ParseURL and CheckValidBucketNameStrict by their errors, and net.
pub record Libraries : Type 0 where
  pub net : Net
  pub parse_database : Text → Option Error
  pub parse_redis : Text → Option Error
  pub check_bucket : Text → Option Error

abbrev pub database_config : DatabaseConfig → Database.Config
database_config c = record {
  connection_string = c.url.reveal;
  max_connections = c.max_connections;
  min_connections = c.min_connections;
}

abbrev pub redis_config : RedisConfig → Redisclient.Config
redis_config c = record { url = c.url.reveal; key_prefix = c.key_prefix }

abbrev pub objects_config : ObjectStorageConfig → Objectstorage.Config
objects_config c = record {
  endpoint = c.endpoint;
  bucket = c.bucket;
  access_key = c.access_key.reveal;
  secret_key = c.secret_key.reveal;
}

abbrev pub relay_config : OutboxConfig → RelayConfig
relay_config c = record {
  poll_interval = c.poll_interval;
  lease_duration = c.lease_duration;
  batch_size = c.batch_size;
  max_attempts = c.max_attempts;
  base_backoff = c.base_backoff;
  max_backoff = c.max_backoff;
}

pub record Configured : Type 0 where
  pub runtime : Runtime
  pub dependencies : Set Runtime
  pub server : Server

-- main between Load and Run; `fresh` is what NewUUIDv7 returns to NewRelay, and `outcomes` what the
-- libraries answer to the components later on.
unfoldable pub configure : Libraries → Outcomes → Result Text → Config → Result Configured
unfolding Database.new Natsclient.new Redisclient.new Objectstorage.new Relay.new_relay
    Subscription.new new_set Httpserver.new
configure libraries outcomes fresh configuration = do
  database ← Database.new libraries.parse_database (database_config configuration.database)
  nats ← Natsclient.new configuration.nats.reveal
  redis ← Redisclient.new libraries.parse_redis (redis_config configuration.redis)
  objects ←
      Objectstorage.new libraries.net libraries.check_bucket
        (objects_config configuration.object_storage)
  relay ← Relay.new_relay false (relay_config configuration.outbox) fresh
  consumer ← Subscription.new false
  dependencies ← new_set configuration.http.readiness_timeout (map some (wired outcomes))
  ok (record {
    runtime = record {
      database = database;
      nats = nats;
      redis = redis;
      objects = objects;
      consumer = consumer;
      relay = relay;
    };
    dependencies = dependencies;
    server = Httpserver.new configuration.http.http_address;
  })

unfoldable pub run_healthcheck : (Text → Option Error) → Healthcheck.Client → Option Error
unfolding Healthcheck.check
run_healthcheck create client =
    Healthcheck.check create (some client) (codes "http://127.0.0.1:8080/readyz")

abbrev pub is_healthcheck : List Text → Bool
is_healthcheck [] = false
is_healthcheck (program ∷ []) = false
is_healthcheck (program ∷ command ∷ rest) =
    length rest == 0 && text_eq command (codes "healthcheck")

abbrev pub exit_code : Option Error → ℕ
exit_code none = 0
exit_code (some e) = 1

-- What Run meets: the errors of Listen and Shutdown, what ends serving, and what serving does.
pub record Events : Type 0 where
  pub listen : Option Error
  pub wake : Wake
  pub shutdown : Option Error
  pub serving : Runtime → Runtime

unfoldable pub run_configured : Events → Result Configured → Option Error
unfolding run
run_configured events (err e) = some e
run_configured events (ok configured) =
    (run configured.server.address events.listen events.wake events.shutdown events.serving
      configured.dependencies configured.runtime).2

-- main, as its exit status.
unfoldable pub main :
    Libraries
    → Outcomes
    → Result Text
    → LookupEnv
    → Events
    → (Text → Option Error)
    → Healthcheck.Client
    → List Text
    → ℕ
unfolding load configure run_configured run_healthcheck
main libraries outcomes fresh lookup events create client arguments =
    if is_healthcheck arguments
    then exit_code (run_healthcheck create client)
    else exit_code (
        run_configured events (do
          configuration ← load libraries.net lookup
          configure libraries outcomes fresh configuration))

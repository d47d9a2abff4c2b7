-- ===== src/Checks/Configuring.antt =====
-- The default configuration, wired and run.
use mano_reck.Prelude.{[], ◌↔◌, ◌≡◌, refl, true, false, none, some, text_eq, codes, pos, arith}
use mano_reck.GoError.{ok}
use mano_reck.Natsclient.{Drain, drained}
use mano_reck.Process.{
  Libraries, Configured, Events, configure, database_config, objects_config, relay_config,
}
use mano_reck.Process.Components.{Outcomes, wired}
use mano_reck.Process.Wiring.{Accepted, configure_iff}
use mano_reck.Httpserver
use mano_reck.Dependency.{start}
use mano_reck.Appruntime.{served}
use mano_reck.Checks.Loading.{net, configuration, nats_url, redis_url, configuration-IsValid}
use mano_reck.Database
use mano_reck.Natsclient
use mano_reck.Redisclient
use mano_reck.Objectstorage
use mano_reck.Outbox.Relay
use mano_reck.EventConsumer.Subscription.{idle_consumer}
use mano_reck.EventConsumer.Subscription
use mano_reck.Config.Address.{Url}
use mano_reck.Checks.Fixtures.{first_id, failure}

abbrev libraries : Libraries
libraries = record {
  net = net;
  parse_database = λ s. none;
  parse_redis = λ s. none;
  check_bucket = λ s. none;
}

accepted : Accepted libraries (ok first_id) configuration
accepted = record { database = refl; redis = refl; bucket = refl; worker = (first_id, refl) }

no_host : (u : Url) → net.parse_url [] ≡ ok u → u.host ≡ []
unfolding text_eq
no_host u h = absurd (ground arith)

-- The stream exists, the bucket is made, and the workers end in time.
abbrev outcomes : Outcomes
outcomes = record {
  parse_database = λ s. none;
  create_pool = none;
  ping_database = none;
  connect = none;
  jet_stream = none;
  ensure_stream = none;
  is_connected = true;
  flush = none;
  stream_info = none;
  drain = drained none;
  ping_redis = none;
  close_redis = none;
  construct_objects = none;
  bucket_at_start = ok false;
  make_bucket = none;
  bucket_at_check = ok true;
  topology = record { info = none; add = none; update = none; subscribe = none };
  consumer_expired = none;
  relay_expired = none;
}

configure_iff_example :
    ((c : Configured) × (configure libraries outcomes (ok first_id) configuration ≡ ok c))
    ↔ Accepted libraries (ok first_id) configuration
configure_iff_example =
    configure_iff libraries outcomes (ok first_id) configuration configuration-IsValid no_host

abbrev configured : Configured
configured = record {
  runtime = record {
    database = record { config = database_config configuration.database; pool_open = false };
    nats = record { url = nats_url; connected = false; jet_stream = false; connections = 0 };
    redis = record { url = redis_url; key_prefix = codes "manoreck"; started = false };
    objects = record {
      configuration = objects_config configuration.object_storage;
      endpoint = codes "127.0.0.1:8333";
      secure = false;
      started = false;
    };
    consumer = idle_consumer;
    relay = record {
      config = relay_config configuration.outbox;
      worker_id = first_id;
      started = false;
      last_error = none;
      running = 0;
      stopping = 0;
    };
  };
  dependencies = record {
    components = wired outcomes;
    timeout = pos 2_000_000_000;
    active = false;
    started = 0;
  };
  server = Httpserver.new (codes ":8080");
}

-- While it serves, the relay fails once, and the server stops with an error.
abbrev events : Events
events = record {
  listen = none;
  wake = served (some failure);
  shutdown = none;
  serving = λ w. record w { relay = record w.relay { last_error = some failure } };
}

run-opens : (start configured.dependencies configured.runtime).2 ≡ none
unfolding start Database.start Natsclient.start Redisclient.start Objectstorage.start
    Subscription.start Relay.start
run-opens = refl

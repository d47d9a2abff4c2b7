-- ===== src/Process/Closing.antt =====
-- The process closes what it opened.
use mano_reck.Prelude.{false}
use mano_reck.Natsclient
use mano_reck.Database
use mano_reck.Redisclient
use mano_reck.Objectstorage
use mano_reck.Outbox.Relay
use mano_reck.EventConsumer.Subscription.{Consumer, Topology, bind}
use mano_reck.EventConsumer.Subscription
use mano_reck.Config.Load.{Config}
use mano_reck.Process.Opened.{Opened}

abbrev pub all_closed : Opened
all_closed = record {
  database = false;
  nats = false;
  connections = 0;
  redis = false;
  objects = false;
  consumer = false;
  subscriptions = 0;
  consumer_running = 0;
  consumer_stopping = 0;
  relay = false;
  relay_running = 0;
  relay_stopping = 0;
}

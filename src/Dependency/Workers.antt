-- ===== src/Dependency/Workers.antt =====
-- The database, the relay and the consumer as components of the dependency set.
use mano_reck.Prelude.{Option, Text, codes}
use mano_reck.GoError.{Error}
use mano_reck.Natsclient
use mano_reck.Database.{Database}
use mano_reck.Database
use mano_reck.Outbox.Relay.{Relay}
use mano_reck.Outbox.Relay
use mano_reck.EventConsumer.Subscription.{Consumer, Topology}
use mano_reck.EventConsumer.Subscription
use mano_reck.Dependency.{Component}

abbrev pub relay_component : Option Error → Component Relay
relay_component expired = record {
  name = codes "outbox-relay";
  start = Relay.start;
  check = Relay.check;
  close = Relay.close expired;
}

abbrev pub consumer_component : Natsclient.Client → Topology → Option Error → Component Consumer
consumer_component client topology expired = record {
  name = codes "event-consumer";
  start = Subscription.start client topology;
  check = Subscription.check;
  close = Subscription.close expired;
}

abbrev pub database_component :
    (Text → Option Error) → Option Error → Option Error → Component Database
database_component parse create ping = record {
  name = codes "postgres";
  start = Database.start parse create;
  check = Database.check ping;
  close = Database.close;
}

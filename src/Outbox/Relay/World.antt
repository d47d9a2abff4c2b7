-- ===== src/Outbox/Relay/World.antt =====
-- The relay over the repository and the NATS client: the world that they change.
use mano_reck.Prelude.{ℕ, ◌+◌, Bool, Option, List, Text, ℤ}
use mano_reck.GoError.{Error, Result}
use mano_reck.Database.{Database, TxOutcomes, Outcome}
use mano_reck.Natsclient
use mano_reck.Outbox.Row.{Row, Table}
use mano_reck.Outbox.Repository.{Query, Codec, Record, claim, mark_published, mark_failed}
use mano_reck.Outbox.Relay.{Services}

-- The table, the identifiers of the events that JetStream has stored so far, and a count of calls.
pub record World : Type 0 where
  pub table : Table
  pub stream : List Text
  pub calls : ℕ

-- What the surroundings do at each call: the clocks, the state of the clients, the outcomes, the rows
-- locked by others, and what others have changed since the call before.
pub record Surroundings : Type 0 where
  pub codec : Codec
  pub clock : ℕ → ℕ
  pub database : ℕ → Database
  pub outcomes : ℕ → TxOutcomes
  pub query : ℕ → Query
  pub statement : ℕ → Outcome
  pub locked : ℕ → Row → Bool
  pub client : ℕ → Natsclient.Client
  pub others : ℕ → World → World

module _ (env : Surroundings) where
  -- The world as a call finds it.
  unfoldable pub enter : World → World
  enter w = let w' = env.others w.calls w in record w' { calls = w.calls + 1 }

  unfoldable pub claim_call : Text → ℤ → ℤ → World → World × Result (List Record)
  unfolding enter
  claim_call worker limit lease w =
      let k = w.calls in
      let w' = enter w in
      let (table, result) =
        claim env.codec (env.database k) (env.outcomes k) (env.query k) (env.clock k) (env.locked k)
          worker limit lease w'.table in
      (record w' { table = table }, result)

  unfoldable pub mark_published_call : Text → Text → World → World × Option Error
  unfolding enter
  mark_published_call id worker w =
      let k = w.calls in
      let w' = enter w in
      let (table, failure) =
        mark_published (env.database k) (env.statement k) (env.clock k) id worker w'.table in
      (record w' { table = table }, failure)

  unfoldable pub mark_failed_call : Text → Text → Text → ℤ → ℕ → Text → World → World × Option Error
  unfolding enter
  mark_failed_call id worker class max_attempts next code w =
      let k = w.calls in
      let w' = enter w in
      let (table, failure) =
        mark_failed (env.database k) (env.statement k) (env.clock k) id worker class max_attempts
          next code w'.table in
      (record w' { table = table }, failure)

  unfoldable pub publish_call : Text → Text → Text → World → World × Option Error
  unfolding enter
  publish_call subject id payload w =
      let k = w.calls in
      let w' = enter w in
      let (stream, failure) =
        Natsclient.publish (Natsclient.jet_stream_error (env.client k)) (env.statement k) id
          w'.stream in
      (record w' { stream = stream }, failure)

  unfoldable pub now_call : World → World × ℕ
  unfolding enter
  now_call w = (enter w, env.clock w.calls)

  -- The services of the relay that cmd/api wires up.
  unfoldable pub services : Services World
  unfolding claim_call mark_published_call mark_failed_call publish_call now_call
  services = record {
    claim = claim_call;
    mark_published = mark_published_call;
    mark_failed = mark_failed_call;
    publish = publish_call;
    now = now_call;
    marshal = env.codec.marshal;
  }

-- ===== src/Checks/Relaying.antt =====
-- The relay at concrete inputs.
use Prim.Native.Nat.{min}
use mano_reck.Prelude.{
  ◌-◌, ◌*◌, ◌^◌, ◌≡◌, refl, sym, subst, inl, inr, ap, false, true, none, [], ◌∷◌, codes, pos, arith,
  text_eq,
}
use mano_reck.Database.{applied, pool}
use mano_reck.Natsclient
use mano_reck.GoStrings.{trim_space}
use mano_reck.Json.{valid}
use mano_reck.Regex.{match_string}
use mano_reck.Event.{validate, is_json_object}
use mano_reck.Identifier.{is_uuidv7, is_lower_hex}
use mano_reck.Outbox.Row.{where_rows, sort_by_age, has_id}
use mano_reck.Outbox.Rows.{In, UniqueIds}
use mano_reck.Outbox.Repository.{answered, claimable, candidates}
use mano_reck.Outbox.Relay.{process_batch}
use mano_reck.Outbox.Relay.Calm.{Calm}
use mano_reck.Outbox.Relay.Batch.{Readable, Progressed, batch, process_batch-Progressed}
use mano_reck.Outbox.Row.{Row}
use mano_reck.Outbox.Repository.{new_row}
use mano_reck.Outbox.Relay.{RelayConfig, Relay, backoff, run}
use mano_reck.Outbox.Relay.Backoff.{backoff-eq-min}
use mano_reck.Outbox.Relay.World.{World, Surroundings, services}
use mano_reck.Outbox.Relay.Delivery.{IsSafe, Relies, run-IsSafe}
use mano_reck.Checks.Fixtures.{codec, database, outcomes, worker, fresh_row, envelope}

abbrev policy : RelayConfig
policy = record {
  poll_interval = pos 1_000;
  lease_duration = pos 30_000;
  batch_size = pos 10;
  max_attempts = pos 3;
  base_backoff = pos 2_000;
  max_backoff = pos 60_000;
}

backoff-eq-min_example : backoff policy 4 ≡ pos (min 60_000 (2_000 * 2 ^ (4 - 1)))
backoff-eq-min_example =
    backoff-eq-min policy 2_000 60_000 4 refl refl (omega arith) (omega arith) (omega arith)

abbrev relay : Relay
relay = record {
  config = policy;
  worker_id = worker;
  started = true;
  last_error = none;
  running = 1;
  stopping = 0;
}

abbrev surroundings : Surroundings
surroundings = record {
  codec = codec;
  clock = λ k. 3000;
  database = λ k. database;
  outcomes = λ k. outcomes;
  query = λ k. answered none;
  statement = λ k. applied;
  locked = λ k r. false;
  client = λ k. record {
    url = codes "nats://nats:4222";
    connected = true;
    jet_stream = true;
    connections = 1;
  };
  others = λ k w. w;
}

-- One event waits.
abbrev world : World
world = record { table = fresh_row ∷ []; stream = []; calls = 0 }

world-IsSafe : IsSafe world
unfolding new_row
world-IsSafe r (inl e) p = absurd (ground (arith, ap (λ (x : Row). x.status) e))
world-IsSafe r (inr m) p = absurd m

surroundings-Relies : Relies surroundings
surroundings-Relies = record { keeps = λ k w s. s; grows = λ k w id m. m }

run-IsSafe_example : IsSafe (run (services surroundings) 2 relay world).1
run-IsSafe_example = run-IsSafe surroundings surroundings-Relies 2 relay world world-IsSafe

surroundings-Calm : Calm surroundings
unfolding pool Natsclient.jet_stream_error
surroundings-Calm = record {
  database = λ k. refl;
  begin = λ k. refl;
  commit = λ k. refl;
  query = λ k. refl;
  statement = λ k. refl;
  unlocked = λ k r. refl;
  client = λ k. refl;
  alone = λ k w. refl;
  marshal = λ e. (e.body, refl);
}

fresh_row-Readable : Readable codec fresh_row
unfolding new_row validate text_eq is_uuidv7 is_lower_hex match_string trim_space is_json_object
    valid
fresh_row-Readable = (envelope, refl, refl, refl)

worker-canonical : is_uuidv7 worker ≡ true
unfolding is_uuidv7 is_lower_hex
worker-canonical = refl

fresh_row-batch : In fresh_row (batch surroundings surroundings-Calm policy worker world)
unfolding new_row claimable candidates where_rows sort_by_age
fresh_row-batch = inl refl

world-UniqueIds : UniqueIds world.table
unfolding has_id
world-UniqueIds = (refl, tt)

process_batch-Progressed_example :
    (w' : World) × (process_batch (services surroundings) policy worker world ≡ (w', none))
    × Progressed surroundings surroundings-Calm policy worker world w'
process_batch-Progressed_example =
    process_batch-Progressed surroundings surroundings-Calm policy worker world worker-canonical
      refl refl world-UniqueIds
      (λ r m. elim m [
        | inl e ↦ subst (Readable codec) (sym e) fresh_row-Readable
        | inr n ↦ absurd n
      ])

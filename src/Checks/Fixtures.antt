-- ===== src/Checks/Fixtures.antt =====
-- Data for the examples.
use mano_reck.Prelude.{text_eq, if◌then◌else◌, true, none, some, [], Text, codes, pos}
use mano_reck.GoError.{Error, errorf, ok}
use mano_reck.Event.{Envelope, subject_text}
use mano_reck.Database.{Database, TxOutcomes, applied}
use mano_reck.Outbox.Row.{Row, Status}
use mano_reck.Outbox.Repository.{Codec, new_row}

abbrev pub first_id : Text
first_id = codes "0190c5f0-0000-7000-8000-000000000001"

abbrev pub second_id : Text
second_id = codes "0190c5f0-0000-7000-8000-000000000002"

abbrev pub envelope : Envelope
envelope = record {
  id = first_id;
  type = codes "platform.probe";
  version = pos 1;
  occurred_at = 1000;
  tenant_id = none;
  aggregate = record { type = codes "probe"; id = second_id };
  correlation_id = second_id;
  causation_id = second_id;
  body = codes "{}";
}

abbrev pub failure : Error
failure = errorf "failure" []

abbrev pub codec : Codec
codec = record {
  marshal = λ e. ok e.body;
  unmarshal = λ t. ok envelope;
  jsonb = λ t. t;
  operators = record {
    is_object = λ payload. true;
    field = λ payload name.
        if text_eq name (codes "id")
        then some first_id
        else if text_eq name (codes "type")
        then some (codes "platform.probe")
        else some (codes "1");
    integer = λ t. some (pos 1);
  };
}

abbrev pub database : Database
database = record {
  config = record { connection_string = []; max_connections = pos 4; min_connections = pos 0 };
  pool_open = true;
}

abbrev pub outcomes : TxOutcomes
outcomes = record { begin = none; rollback = none; commit = applied }

abbrev pub worker : Text
worker = codes "0190c5f0-0000-7000-8000-0000000000a1"

abbrev pub rival : Text
rival = codes "0190c5f0-0000-7000-8000-0000000000b1"

abbrev pub fresh_row : Row
fresh_row = new_row codec 2000 envelope (subject_text envelope.type envelope.version) envelope.body

abbrev pub leased_row : Row
leased_row = record fresh_row {
  status = Status.publishing;
  attempt_count = 1;
  lease_owner = some worker;
  lease_expires_at = some 9000;
}

abbrev pub published_row : Row
published_row = record fresh_row {
  status = Status.published;
  attempt_count = 1;
  published_at = some 5000;
}

-- ===== src/Outbox/Repository/Records.antt =====
-- The records that pass through the repository, and encoding/json over envelopes.
use mano_reck.Prelude.{Option, ℕ, Text, codes}
use mano_reck.GoError.{Error, Result}
use mano_reck.Event.{Envelope}
use mano_reck.Outbox.Schema.{Jsonb}

-- json.Marshal and json.Unmarshal of an envelope, the normal form of a payload as jsonb, and the
-- operators of jsonb that the constraints of the table use.
pub record Codec : Type 0 where
  pub marshal : Envelope → Result Text
  pub unmarshal : Text → Result Envelope
  pub jsonb : Text → Text
  pub operators : Jsonb

-- How the result of the claiming query fails: a row that Scan refuses after `n` good ones, or rows that
-- end early, which rows.Err reports.
pub data Interruption : Type 0 where
  scan_failed : ℕ → Error → Interruption
  rows_failed : ℕ → Error → Interruption

-- How the claiming query ends: refused, or answered, with its rows read to the end or not.
pub data Query : Type 0 where
  query_failed : Error → Query
  answered : Option Interruption → Query

-- Record is one leased event; FailureClass is a string in the source.
pub record Record : Type 0 where
  pub envelope : Envelope
  pub subject : Text
  pub attempt : ℕ

abbrev pub failure_transient : Text
failure_transient = codes "transient"

abbrev pub failure_permanent : Text
failure_permanent = codes "permanent"

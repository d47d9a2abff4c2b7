-- ===== src/Outbox/Relay/Calm.antt =====
-- The calls of the relay while nothing fails and nobody interferes.
use mano_reck.Prelude.{
  ℕ, ◌+◌, ◌≡◌, inl, inr, refl, ap, ◌∙◌, true, false, Option, none, some, List, ◌∷◌, Text,
  text_eq_refl,
}
use mano_reck.GoError.{Error, ok}
use mano_reck.Database.{applied, pool}
use mano_reck.Natsclient
use mano_reck.Event.{Envelope}
use mano_reck.Outbox.Row.{Row, Table, publishing, update_where, count_where}
use mano_reck.Outbox.Rows.{In, UniqueIds}
use mano_reck.Outbox.Marking.{owned_count}
use mano_reck.Outbox.Repository.{answered, Record, owns, publish_row, mark_published, exec_update}
use mano_reck.Outbox.Relay.{Services, RelayConfig, publish_record, after_publish, process_records}
use mano_reck.Outbox.Relay.World.{
  World, Surroundings, enter, publish_call, mark_published_call, services,
}

-- Every call succeeds, no row is locked, and nothing changes between the calls.
pub record Calm (env : Surroundings) : Type 0 where
  pub database : (k : ℕ) → pool (env.database k) ≡ none
  pub begin : (k : ℕ) → (env.outcomes k).begin ≡ none
  pub commit : (k : ℕ) → (env.outcomes k).commit ≡ applied
  pub query : (k : ℕ) → env.query k ≡ answered none
  pub statement : (k : ℕ) → env.statement k ≡ applied
  pub unlocked : (k : ℕ) (r : Row) → env.locked k r ≡ false
  pub client : (k : ℕ) → Natsclient.jet_stream_error (env.client k) ≡ none
  pub alone : (k : ℕ) (w : World) → env.others k w ≡ w
  pub marshal : (e : Envelope) → (payload : Text) × (env.codec.marshal e ≡ ok payload)

-- A row that a worker has leased.
abbrev pub Leased : Text → Row → Type 0
Leased worker r = (r.status ≡ publishing) × (r.lease_owner ≡ some worker)

pub Leased-owns : (worker : Text) (r : Row) → Leased worker r → owns r.id worker r ≡ true
unfolding owns
Leased-owns worker r (s, o) = rw (owns, s, o, text_eq_refl r.id, text_eq_refl worker) refl

pub owned_once :
    (id worker : Text) (r : Row) (table : Table)
    → UniqueIds table
    → In r table
    → owns id worker r ≡ true
    → count_where (owns id worker) table ≡ 1
owned_once id worker r table u m mine = elim (owned_count id worker table u) [
  | inl (q, n, t, one) ↦ one
  | inr nobody ↦ cc (nobody r m, mine)
]

module _ {W : Type 0} (calls : Services W) (c : RelayConfig) (worker : Text) where
  publish_record-sent :
      (x : Record) (payload : Text) (w w1 : W)
      → calls.publish x.subject x.envelope.id payload w ≡ (w1, none)
      → publish_record calls c worker x (ok payload) w
        ≡ calls.mark_published x.envelope.id worker w1
  unfolding publish_record after_publish
  publish_record-sent x payload w w1 e = rw e refl

  pub process_records-next :
      (x : Record) (records : List Record) (w w1 : W)
      → publish_record calls c worker x (calls.marshal x.envelope) w ≡ (w1, none)
      → process_records calls c worker (x ∷ records) w ≡ process_records calls c worker records w1
  unfolding process_records
  process_records-next x records w w1 e =
      ap
        (λ (p : W × Option Error). elim p.1 [
          | none ↦ process_records calls c worker records p.0
          | some f ↦ (p.0, some f)
        ])
        e

module _ (env : Surroundings) (calm : Calm env) where
  enter-eq : (w : World) → enter env w ≡ record w { calls = w.calls + 1 }
  unfolding enter
  enter-eq w = rw (enter, calm.alone w.calls w) refl

  publish_call-eq :
      (subject id payload : Text) (w : World)
      → publish_call env subject id payload w
        ≡ (record w { stream = id ∷ w.stream; calls = w.calls + 1 }, none)
  unfolding publish_call enter Natsclient.publish
  publish_call-eq subject id payload w =
      rw (publish_call, enter, calm.alone w.calls w, calm.client w.calls, calm.statement w.calls)
        refl

  mark_published_call-eq :
      (id worker : Text) (r : Row) (w : World)
      → UniqueIds w.table
      → In r w.table
      → owns id worker r ≡ true
      → mark_published_call env id worker w ≡ (
        record w {
          table = update_where (owns id worker) (publish_row (env.clock w.calls)) w.table;
          calls = w.calls + 1;
        },
        none,
      )
  unfolding mark_published_call enter mark_published exec_update
  mark_published_call-eq id worker r w u m mine =
      rw
        (
          mark_published_call,
          enter,
          mark_published,
          calm.alone w.calls w,
          calm.database w.calls,
          calm.statement w.calls,
          owned_once id worker r w.table u m mine,
        )
        refl

  -- The world after one record, whose row is `r`.
  abbrev pub after_record : Text → Row → World → World
  after_record worker r w = record w {
    table = update_where (owns r.id worker) (publish_row (env.clock (w.calls + 1))) w.table;
    stream = r.id ∷ w.stream;
    calls = w.calls + 1 + 1;
  }

  pub publish_record-eq :
      (c : RelayConfig) (worker : Text) (x : Record) (r : Row) (w : World)
      → x.envelope.id ≡ r.id
      → UniqueIds w.table
      → In r w.table
      → Leased worker r
      → publish_record (services env) c worker x (env.codec.marshal x.envelope) w
        ≡ (after_record worker r w, none)
  unfolding services
  publish_record-eq c worker x r w same u m leased =
      let (payload, e) = calm.marshal x.envelope in
      let w1 : World = record w { stream = r.id ∷ w.stream; calls = w.calls + 1 } in
      let sent =
        publish_call-eq x.subject x.envelope.id payload w
        ∙ ap (λ (id : Text). (record w { stream = id ∷ w.stream; calls = w.calls + 1 }, none))
            same in
      let marked = mark_published_call-eq r.id worker r w1 u m (Leased-owns worker r leased) in
      ap (λ p. publish_record (services env) c worker x p w) e
      ∙ publish_record-sent (services env) c worker x payload w w1 sent
      ∙ ap (λ id. mark_published_call env id worker w1) same
      ∙ marked

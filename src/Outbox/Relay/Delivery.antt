-- ===== src/Outbox/Relay/Delivery.antt =====
-- At-least-once delivery: however the relay's calls end and whatever others do between them, a row is
-- published only when its event is in the stream.
use mano_reck.Prelude.{
  ℕ, zero, suc, ◌≡◌, inl, inr, refl, Option, none, some, List, [], ◌∷◌, Text, ℤ, codes,
}
use mano_reck.GoError.{Error, Result, ok, err}
use mano_reck.Database.{Outcome, applied, refused, unacknowledged}
use mano_reck.Natsclient
use mano_reck.Outbox.Repository.{Record, failure_transient, failure_permanent}
use mano_reck.Outbox.Relay.{
  RelayConfig, Relay, backoff, add_duration, after_publish, publish_record, process_records,
  continue_loop, after_claim, process_batch, run,
}
use mano_reck.Outbox.Relay.World.{
  World, Surroundings, claim_call, mark_published_call, mark_failed_call, publish_call, now_call,
  services,
}
use mano_reck.Outbox.Relay.Safety.{
  InText, IsBacked, claim-IsBacked, mark_failed-IsBacked, mark_published-IsBacked,
}

abbrev pub IsSafe : World → Type 0
IsSafe w = IsBacked w.stream w.table

-- What the relay relies on: others keep to the same rule, and the stream loses nothing.
pub record Relies (env : Surroundings) : Type 0 where
  pub keeps : (k : ℕ) (w : World) → IsSafe w → IsSafe (env.others k w)
  pub grows :
      (k : ℕ) (w : World) (id : Text) → InText id w.stream → InText id (env.others k w).stream

publish-grows :
    (p : Option Error) (outcome : Outcome) (id x : Text) (stream : List Text)
    → InText x stream
    → InText x (Natsclient.publish p outcome id stream).0
unfolding Natsclient.publish
publish-grows (some e) outcome id x stream m = m
publish-grows none applied id x stream m = inr m
publish-grows none (refused e) id x stream m = m
publish-grows none (unacknowledged e) id x stream m = inr m

-- Publish returns nil only when the event is stored.
publish-stores :
    (p : Option Error) (outcome : Outcome) (id : Text) (stream : List Text)
    → (Natsclient.publish p outcome id stream).1 ≡ none
    → InText id (Natsclient.publish p outcome id stream).0
unfolding Natsclient.publish
publish-stores (some e) outcome id stream h = cc
publish-stores none applied id stream h = inl refl
publish-stores none (refused e) id stream h = cc
publish-stores none (unacknowledged e) id stream h = cc

module _ (env : Surroundings) (rely : Relies env) where
  claim_call-IsSafe :
      (worker : Text) (limit lease : ℤ) (w : World)
      → IsSafe w
      → IsSafe (claim_call env worker limit lease w).0
  unfolding claim_call
  claim_call-IsSafe worker limit lease w s =
      let k = w.calls in
      let w' = env.others k w in
      claim-IsBacked env.codec (env.database k) (env.outcomes k) (env.query k) (env.clock k)
        (env.locked k) worker limit lease w'.stream w'.table (rely.keeps k w s)

  mark_failed_call-IsSafe :
      (id worker class : Text) (max_attempts : ℤ) (next : ℕ) (code : Text) (w : World)
      → IsSafe w
      → IsSafe (mark_failed_call env id worker class max_attempts next code w).0
  unfolding mark_failed_call
  mark_failed_call-IsSafe id worker class max_attempts next code w s =
      let k = w.calls in
      let w' = env.others k w in
      mark_failed-IsBacked (env.database k) (env.statement k) (env.clock k) id worker class
        max_attempts next code w'.stream w'.table (rely.keeps k w s)

  mark_published_call-IsSafe :
      (id worker : Text) (w : World)
      → InText id w.stream
      → IsSafe w
      → IsSafe (mark_published_call env id worker w).0
  unfolding mark_published_call
  mark_published_call-IsSafe id worker w stored s =
      let k = w.calls in
      let w' = env.others k w in
      mark_published-IsBacked (env.database k) (env.statement k) (env.clock k) id worker w'.stream
        w'.table (rely.grows k w id stored) (rely.keeps k w s)

  publish_call-IsSafe :
      (subject id payload : Text) (w : World)
      → IsSafe w
      → IsSafe (publish_call env subject id payload w).0
        × ((publish_call env subject id payload w).1 ≡ none
            → InText id (publish_call env subject id payload w).0.stream)
  unfolding publish_call
  publish_call-IsSafe subject id payload w s =
      let k = w.calls in
      let w' = env.others k w in
      let p = Natsclient.jet_stream_error (env.client k) in
      (
        λ r m h. publish-grows p (env.statement k) id r.id w'.stream (rely.keeps k w s r m h),
        λ h. publish-stores p (env.statement k) id w'.stream h,
      )

  now_call-IsSafe : (w : World) → IsSafe w → IsSafe (now_call env w).0
  unfolding now_call
  now_call-IsSafe w s = rely.keeps w.calls w s

  module _ (c : RelayConfig) (worker : Text) where
    after_publish-IsSafe :
        (r : Record) (o : Option Error) (w : World)
        → (o ≡ none → InText r.envelope.id w.stream)
        → IsSafe w
        → IsSafe (after_publish (services env) c worker r o w).0
    unfolding after_publish services
    after_publish-IsSafe r none w stored s =
        mark_published_call-IsSafe r.envelope.id worker w (stored refl) s
    after_publish-IsSafe r (some e) w stored s =
        mark_failed_call-IsSafe r.envelope.id worker failure_transient c.max_attempts
          (add_duration (now_call env w).1 (backoff c r.attempt)) (codes "nats_publish_failed")
          (now_call env w).0 (now_call-IsSafe w s)

    publish_record-IsSafe :
        (r : Record) (m : Result Text) (w : World)
        → IsSafe w
        → IsSafe (publish_record (services env) c worker r m w).0
    unfolding publish_record services
    publish_record-IsSafe r (err e) w s =
        mark_failed_call-IsSafe r.envelope.id worker failure_permanent c.max_attempts
          (now_call env w).1 (codes "event_encoding_failed") (now_call env w).0
          (now_call-IsSafe w s)
    publish_record-IsSafe r (ok payload) w s =
        let (safe, stored) = publish_call-IsSafe r.subject r.envelope.id payload w s in
        after_publish-IsSafe r (publish_call env r.subject r.envelope.id payload w).1
          (publish_call env r.subject r.envelope.id payload w).0 stored safe

    process_records-IsSafe :
        (records : List Record) (w : World)
        → IsSafe w
        → IsSafe (process_records (services env) c worker records w).0
    unfolding process_records services
    process_records-IsSafe [] w s = s
    process_records-IsSafe (r ∷ records) w s =
        let m = (services env).marshal r.envelope in
        let w' = (publish_record (services env) c worker r m w).0 in
        let safe = publish_record-IsSafe r m w s in
        (elim (publish_record (services env) c worker r m w).1
          as (λ o. IsSafe (continue_loop (services env) c worker records w' o).0) [
            | none ↦ process_records-IsSafe records w' safe
            | some e ↦ safe
          ])

    after_claim-IsSafe :
        (claimed : Result (List Record)) (w : World)
        → IsSafe w
        → IsSafe (after_claim (services env) c worker claimed w).0
    unfolding after_claim
    after_claim-IsSafe (err e) w s = s
    after_claim-IsSafe (ok records) w s = process_records-IsSafe records w s

    process_batch-IsSafe :
        (w : World) → IsSafe w → IsSafe (process_batch (services env) c worker w).0
    unfolding process_batch services
    process_batch-IsSafe w s =
        after_claim-IsSafe (claim_call env worker c.batch_size c.lease_duration w).1
          (claim_call env worker c.batch_size c.lease_duration w).0
          (claim_call-IsSafe worker c.batch_size c.lease_duration w s)

  -- Where others keep to the rule between the relay's calls and the record of stored events only grows:
  -- if each published row's event has been stored by JetStream, then so it is after any number of
  -- rounds of the relay, whatever its calls come to.
  pub run-IsSafe :
      (rounds : ℕ) (relay : Relay) (w : World)
      → IsSafe w
      → IsSafe (run (services env) rounds relay w).1
  unfolding run
  run-IsSafe zero relay w s = s
  run-IsSafe (suc rounds) relay w s =
      let (w', failure) = process_batch (services env) relay.config relay.worker_id w in
      run-IsSafe rounds (record relay { last_error = failure }) w'
        (process_batch-IsSafe relay.config relay.worker_id w s)

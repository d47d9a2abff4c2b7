-- ===== src/Outbox/Relay.antt =====
-- backend/internal/platform/outbox/relay.go: the worker that publishes leased events. The worker runs
-- over a world that its repository, its publisher and the clock change.
pub mod Backoff
pub mod World
pub mod Delivery
pub mod Safety
pub mod Calm
pub mod Progress
pub mod Batch
use mano_reck.Prelude.{
  ℕ, zero, suc, ◌+◌, ◌-◌, Bool, true, false, not, ◌||◌, ltb, if◌then◌else◌, Option, none, some,
  List, [], ◌∷◌, Text, codes, ℤ, pos, negsuc, ltb_ℤ, half64, double64,
}
use mano_reck.GoError.{Error, Sentinel, errorf, wrapf, errors_is, errors_join, Result, ok, err}
use mano_reck.Event.{Envelope}
use mano_reck.Outbox.Repository.{Record, failure_transient, failure_permanent}

-- Durations are nanoseconds.
pub record RelayConfig : Type 0 where
  pub poll_interval : ℤ
  pub lease_duration : ℤ
  pub batch_size : ℤ
  pub max_attempts : ℤ
  pub base_backoff : ℤ
  pub max_backoff : ℤ

-- `started` tells whether the field cancel is set. `running` counts the workers that Start has begun
-- and Close has not cancelled, `stopping` those cancelled that had not ended when Close returned. The
-- repository, the publisher and the logger are not part of the state.
pub record Relay : Type 0 where
  pub config : RelayConfig
  pub worker_id : Text
  pub started : Bool
  pub last_error : Option Error
  pub running : ℕ
  pub stopping : ℕ

-- NewRelay; `missing` tells that an argument is nil, `fresh` is what NewUUIDv7 returned.
unfoldable pub new_relay : Bool → RelayConfig → Result Text → Result Relay
new_relay missing c fresh =
    if missing
    then err (errorf "outbox relay repository, publisher, and logger are required" [])
    else if not (ltb_ℤ (pos 0) c.poll_interval) || not (ltb_ℤ (pos 0) c.lease_duration)
    then err (errorf "outbox relay intervals must be positive" [])
    else if ltb_ℤ c.batch_size (pos 1) || ltb_ℤ (pos 1000) c.batch_size
    then err (errorf "outbox relay batch size must be between 1 and 1000" [])
    else if ltb_ℤ c.max_attempts (pos 1)
    then err (errorf "outbox relay maximum attempts must be positive" [])
    else if not (ltb_ℤ (pos 0) c.base_backoff) || ltb_ℤ c.max_backoff c.base_backoff
    then err (errorf "outbox relay backoff policy is invalid" [])
    else elim fresh [
      | err e ↦ err (wrapf "create outbox worker ID: %w" [] e)
      | ok worker_id ↦ ok (record {
        config = c;
        worker_id = worker_id;
        started = false;
        last_error = none;
        running = 0;
        stopping = 0;
      })
    ]

-- Start; the goroutine that it starts is `run`, which writes last_error.
unfoldable pub start : Relay → Relay × Option Error
start relay =
    if relay.started
    then (relay, some (errorf "outbox relay has already started" []))
    else (record relay { started = true; running = relay.running + 1 }, none)

unfoldable pub check : Relay → Option Error
check relay =
    if relay.started then relay.last_error else some (errorf "outbox relay is not started" [])

-- Close after cancel(): the worker ends, and closes `done`, or the deadline passes first.
abbrev pub await_worker : Option Error → Relay → Relay × Option Error
await_worker none relay = (relay, none)
await_worker (some e) relay =
    (record relay { stopping = relay.stopping + 1 }, some (wrapf "stop outbox relay: %w" [] e))

-- Close; `expired` is the context's error where its deadline passed before the worker ended.
unfoldable pub close : Option Error → Relay → Relay × Option Error
close expired relay =
    if relay.started
    then await_worker expired (record relay { started = false; running = relay.running - 1 })
    else (relay, none)

-- The end of backoff, and its loop over the `rounds` attempts that are left.
abbrev pub cap_backoff : ℤ → ℤ → ℤ
cap_backoff max_backoff current = if ltb_ℤ max_backoff current then max_backoff else current

unfoldable pub backoff_loop : ℤ → ℕ → ℤ → ℤ
backoff_loop max_backoff zero current = cap_backoff max_backoff current
backoff_loop max_backoff (suc rounds) current =
    let next = backoff_loop max_backoff rounds (double64 current) in
    let body = if ltb_ℤ (half64 max_backoff) current then max_backoff else next in
    if ltb_ℤ current max_backoff then body else cap_backoff max_backoff current

-- `attempt` counts from 1.
unfoldable pub backoff : RelayConfig → ℕ → ℤ
unfolding backoff_loop double64
backoff c attempt = backoff_loop c.max_backoff (attempt - 1) c.base_backoff

-- `instant.Add(duration)`
abbrev pub add_duration : ℕ → ℤ → ℕ
add_duration t (pos d) = t + d
add_duration t (negsuc d) = t - suc d

-- What the worker uses: RelayRepository, Publisher, time.Now and json.Marshal.
pub record Services (W : Type 0) : Type 0 where
  pub claim : Text → ℤ → ℤ → W → W × Result (List Record)
  pub mark_published : Text → Text → W → W × Option Error
  pub mark_failed : Text → Text → Text → ℤ → ℕ → Text → W → W × Option Error
  pub publish : Text → Text → Text → W → W × Option Error
  pub now : W → W × ℕ
  pub marshal : Envelope → Result Text

-- The error of MarkFailed beside the error that led to it; none where the loop continues.
abbrev pub join_failure : Error → Option Error → Option Error
join_failure e none = none
join_failure e (some f) = errors_join (some e ∷ some f ∷ [])

module _ {W : Type 0} (services : Services W) (c : RelayConfig) (worker : Text) where
  unfoldable pub after_publish : Record → Option Error → W → W × Option Error
  unfolding backoff
  after_publish r none w = services.mark_published r.envelope.id worker w
  after_publish r (some e) w =
      let (w1, instant) = services.now w in
      let (w2, failure) =
        services.mark_failed r.envelope.id worker failure_transient c.max_attempts
          (add_duration instant (backoff c r.attempt)) (codes "nats_publish_failed") w1 in
      (w2, join_failure e failure)

  -- The body of the loop over the records, from json.Marshal on.
  unfoldable pub publish_record : Record → Result Text → W → W × Option Error
  unfolding after_publish
  publish_record r (err e) w =
      let (w1, instant) = services.now w in
      let (w2, failure) =
        services.mark_failed r.envelope.id worker failure_permanent c.max_attempts instant
          (codes "event_encoding_failed") w1 in
      (w2, join_failure e failure)
  publish_record r (ok payload) w =
      let (w1, failure) = services.publish r.subject r.envelope.id payload w in
      after_publish r failure w1

  -- The loop ends at the first error that it returns.
  unfoldable pub process_records : List Record → W → W × Option Error
  unfolding publish_record
  process_records [] w = (w, none)
  process_records (r ∷ records) w =
      let (w', failure) = publish_record r (services.marshal r.envelope) w in
      let rest = process_records records w' in elim failure [ none ↦ rest | some e ↦ (w', some e) ]

  -- The rest of the loop after a record that ended in `failure`.
  abbrev pub continue_loop : List Record → W → Option Error → W × Option Error
  continue_loop records w none = process_records records w
  continue_loop records w (some e) = (w, some e)

  unfoldable pub after_claim : Result (List Record) → W → W × Option Error
  unfolding process_records
  after_claim (err e) w = (w, if errors_is e Sentinel.canceled then none else some e)
  after_claim (ok records) w = process_records records w

  unfoldable pub process_batch : W → W × Option Error
  unfolding after_claim
  process_batch w =
      let (w', claimed) = services.claim worker c.batch_size c.lease_duration w in
      after_claim claimed w'

-- run: `rounds` passes of the loop before the context ends, the error of each kept in the relay.
unfoldable pub run : {W : Type 0} → Services W → ℕ → Relay → W → Relay × W
unfolding process_batch
run services zero relay w = (relay, w)
run services (suc rounds) relay w =
    let (w', failure) = process_batch services relay.config relay.worker_id w in
    run services rounds (record relay { last_error = failure }) w'

-- ===== src/Lib.antt =====
-- The backend of ManoReck: its transactional outbox, the relay to JetStream, the idempotent consumer,
-- and the process that runs them.
--
-- An event is an envelope with a UUIDv7 (backend/internal/platform/event and identifier). It enters the
-- outbox table in the caller's transaction; the relay claims rows under a lease, publishes them to
-- JetStream and marks each as published, retried or dead-lettered (backend/internal/platform/outbox). A
-- durable consumer records each event once, in a transaction, and answers JetStream
-- (backend/internal/platform/eventconsumer). The connections are in backend/internal/platform/database,
-- natsclient, redisclient and objectstorage; backend/internal/platform/dependency starts and closes the
-- components in order, backend/internal/platform/httpserver tells whether they are ready, which
-- backend/internal/platform/healthcheck asks, and backend/internal/platform/appruntime runs the process
-- that backend/cmd/api wires from the configuration.
--
-- Shared: Prelude (lists, Booleans, int64 numbers, byte texts), GoError (error values, errors.Is and
-- errors.Join), Regex (the anchored patterns, with their languages), GoStrings (bytes.TrimSpace, %d),
-- Json (the scanner of encoding/json).
-- Identifier: identifier/uuidv7.go; newUUIDv7 is new_uuidv7, IsUUIDv7 is is_uuidv7. The clock and the
--   random reader are arguments. Identifier/* decode an identifier again.
-- Event: event/envelope.go; Validate is validate, Subject is subject, isJSONObject is is_json_object.
-- Database: database/database.go and transaction.go; InTransaction is in_transaction, over any store and
--   with the outcomes of begin, rollback and commit as arguments. A commit may be applied although its
--   confirmation is lost.
-- Outbox/Row, Outbox/Schema: platform.outbox_events of
--   backend/migrations/000002_outbox_and_consumers.up.sql, a row as a record, the table as a list, and
--   every CHECK constraint on a row; the operators of jsonb in them are a record Jsonb.
-- Outbox/Repository: outbox/repository.go, in Repository/Insert, Claim and Mark; each statement runs at
--   an instant, with an outcome, and the rows of a claim may break off.
--   Outbox/Operations has sequences of its calls by any workers, Outbox/Transitions what one call does
--   to a row.
-- Outbox/Relay: outbox/relay.go over a record of services; processBatch is process_batch.
--   Outbox/Relay/World has the services that backend/cmd/api/main.go wires up, Outbox/Relay/Calm the
--   surroundings in which every call succeeds.
-- Natsclient: natsclient/client.go; Publish is publish, over the identifiers stored so far. A count
--   follows the connections, and counts in Outbox/Relay and EventConsumer/Subscription follow the workers
--   and the subscriptions that Start begins and Close ends. A worker may also end with the context given
--   to Start.
-- EventConsumer: eventconsumer/consumer.go, with platform.event_consumptions in
--   EventConsumer/Consumptions and the backoff in EventConsumer/Delays; process is process,
--   deadLetter is dead_letter. The reply that a message got is a field of the state, emptied when the
--   next message is processed. EventConsumer/Subscription has Start, Check and Close.
-- Dependency: dependency/set.go; Appruntime: appruntime/run.go. Components act on any type of worlds;
--   Dependency/Workers has the database, the relay and the consumer as components, Dependency/Concurrent
--   the writes of the concurrent checks of Readiness.
-- Config: config/config.go; Load is load, in one function per group of variables (Config/Load), its
--   parsers and validators are in Config/Values, slog's levels in Config/Level. Config/Ranges has what a
--   loaded configuration satisfies.
-- Redisclient: redisclient/client.go over a Keyspace; Objectstorage: objectstorage/store.go over a
--   Service. Their Laws are what Redis and S3 document of writes and reads.
-- Requestcontext: requestcontext/identifiers.go. Httpserver: httpserver/server.go over exchanges;
--   requestIdentifiers is request_identifiers. Healthcheck: healthcheck/check.go.
-- Process: backend/cmd/api/main.go; configure wires the six components over one Runtime
--   (Process/Components), and main gives the exit status. Process/Opened reads off what is open.
-- Checks: runs of the models, and the theorems at concrete inputs.
--
-- Bounds and fuel. Numbers are natural numbers, int64 durations integers whose doubling wraps; an event
-- version has to fit its 4-byte column, while an attempt count is taken to have no upper bound. The
-- endless loops of the relay and of the consumer run for a given number of rounds or over a given list
-- of passes, and what is stated of them holds for each; the backoff loops recur on the rounds that
-- their counter leaves, and need no fuel.
--
-- Parameters: pgx, nats.go, encoding/json over envelopes, PostgreSQL's jsonb and its clock, url.Parse and
-- SplitHostPort, redis.ParseURL and Redis, minio's client and S3, and gin's answers to unknown routes.
-- Not modelled: logging, contexts and deadlines but for the errors they lead to, the frontend.
pub mod Prelude
pub mod GoError
pub mod Identifier
pub mod Regex
pub mod GoStrings
pub mod Json
pub mod Event
pub mod Database
pub mod Outbox
pub mod Process
pub mod Natsclient
pub mod EventConsumer
pub mod Dependency
pub mod Appruntime
pub mod Config
pub mod Redisclient
pub mod Objectstorage
pub mod Requestcontext
pub mod Healthcheck
pub mod Httpserver
pub mod Checks

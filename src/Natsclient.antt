-- ===== src/Natsclient.antt =====
-- backend/internal/platform/natsclient/client.go: the JetStream client and its lifecycle. The outcome
-- of each call of the library is an argument.
use mano_reck.Prelude.{
  ℕ, ◌+◌, ◌-◌, Bool, true, false, not, ◌||◌, if◌then◌else◌, Option, none, some, [], Text, text_eq,
  List, ◌∷◌,
}
use mano_reck.GoError.{Error, Sentinel, errorf, wrapf, errors_is, Result, ok, err}
use mano_reck.Database.{Outcome, applied, refused, unacknowledged}

-- Whether the fields connection and jetStream are set; `connections` counts those that were made
-- and neither closed nor drained.
pub record Client : Type 0 where
  pub url : Text
  pub connected : Bool
  pub jet_stream : Bool
  pub connections : ℕ

unfoldable pub new : Text → Result Client
new url =
    if text_eq url []
    then err (errorf "NATS URL must not be empty" [])
    else ok (record { url = url; connected = false; jet_stream = false; connections = 0 })

-- ensureEventsStream: the errors of StreamInfo, AddStream and UpdateStream.
unfoldable pub ensure_events_stream : Option Error → Option Error → Option Error → Option Error
ensure_events_stream none add update = elim update [
  | none ↦ none
  | some e ↦ some (wrapf "update JetStream events stream: %w" [] e)
]
ensure_events_stream (some info) add update =
    if not (errors_is info Sentinel.stream_not_found)
    then some (wrapf "inspect JetStream events stream: %w" [] info)
    else elim add [ none ↦ none | some e ↦ some (wrapf "create JetStream events stream: %w" [] e) ]

-- connection.Close()
abbrev pub close_connection : Client → Client
close_connection client = record client { connections = client.connections - 1 }

-- Start: the errors of nats.Connect, of JetStream, and of ensureEventsStream.
unfoldable pub start : Option Error → Option Error → Option Error → Client → Client × Option Error
start connect jet_stream ensure client =
    if client.connected
    then (client, some (errorf "NATS client has already started" []))
    else elim connect [
      | some e ↦ (client, some (wrapf "connect to NATS: %w" [] e))
      | none ↦
          let dialled = record client { connections = client.connections + 1 } in
          elim jet_stream [
            | some e ↦ (close_connection dialled, some (wrapf "create JetStream context: %w" [] e))
            | none ↦ elim ensure [
              | some e ↦ (close_connection dialled, some e)
              | none ↦ (record dialled { connected = true; jet_stream = true }, none)
            ]
          ]
    ]

-- Check: IsConnected, and the errors of the flush and of StreamInfo.
unfoldable pub check : Bool → Option Error → Option Error → Client → Option Error
check is_connected flush info client =
    if not client.connected || not client.jet_stream
    then some (errorf "NATS client is not started" [])
    else if not is_connected
    then some (errorf "NATS connection is not ready" [])
    else elim flush [
      | some e ↦ some (wrapf "flush NATS connection: %w" [] e)
      | none ↦ elim info [
        | some e ↦ some (wrapf "inspect JetStream events stream: %w" [] e)
        | none ↦ none
      ]
    ]

-- How the wait of Close ends: the drain's result, or the context's error.
pub data Drain : Type 0 where
  drained : Option Error → Drain
  expired : Error → Drain

abbrev pub drain_error : Drain → Option Error
drain_error (drained none) = none
drain_error (drained (some e)) =
    if not (errors_is e Sentinel.connection_closed)
    then some (wrapf "drain NATS connection: %w" [] e)
    else none
drain_error (expired e) = some (wrapf "drain NATS connection: %w" [] e)

-- What becomes of the connection: a drain that starts closes it at its end, ErrConnectionClosed says
-- that it is closed, and Close closes it when the context ends. After another error of Drain it may
-- still be open.
abbrev pub end_connection : Drain → Client → Client
end_connection (drained none) client = close_connection client
end_connection (drained (some e)) client =
    if errors_is e Sentinel.connection_closed then close_connection client else client
end_connection (expired e) client = close_connection client

unfoldable pub close : Drain → Client → Client × Option Error
close drain client =
    let cleared = record client { connected = false; jet_stream = false } in
    if client.connected then (end_connection drain cleared, drain_error drain) else (cleared, none)

-- JetStream, of which only the error matters.
unfoldable pub jet_stream_error : Client → Option Error
jet_stream_error client =
    if client.jet_stream then none else some (errorf "JetStream client is not started" [])

-- Publish: the identifiers of the events that the stream holds, then the error.
unfoldable pub publish_msg : Outcome → Text → List Text → List Text × Option Error
publish_msg applied event_id stream = (event_id ∷ stream, none)
publish_msg (refused e) event_id stream = (stream, some (wrapf "publish JetStream event: %w" [] e))
publish_msg (unacknowledged e) event_id stream =
    (event_id ∷ stream, some (wrapf "publish JetStream event: %w" [] e))

unfoldable pub publish : Option Error → Outcome → Text → List Text → List Text × Option Error
unfolding publish_msg
publish (some e) outcome event_id stream = (stream, some e)
publish none outcome event_id stream = publish_msg outcome event_id stream

-- ===== src/WebSocket/Tests.antt =====
-- Runs of the registry, the broker, the replay and a session of
-- backend/src/jarvis/websocket/session.py, and the theorems at such inputs.
use sriee.Base.{
  ℕ, pos, ◌+◌, ◌≡◌, ◌≤◌, refl, true, some, [], ◌∷◌, arith, length, drop, str_eq, str_beq, List,
}
use sriee.Text.{Str, codes, prefixed, is_hex}
use sriee.Dict.{lookup, insert}
use sriee.Tasks.Model.{TaskEvent}
use sriee.Tasks.Repository.{empty, create_or_get, events_of}
use sriee.Tasks.Service.{Principal, is_task_id}
use sriee.Tasks.Tests.{one_task, one_task-IsValid}
use sriee.WebSocket.Registry.{
  new_connection, count, has_task, discard_task, open_connection, subscribe, no_connections,
}
use sriee.WebSocket.Bounds.{open_call, subscribe_call, run_calls, registry_bounded}
use sriee.WebSocket.Broker.{
  Broker, event, resync, publish, register, broker_subscribe, BrokerMessage,
}
use sriee.WebSocket.Publish as Publish
use sriee.WebSocket.Publish.{
  publish_delivers, queues_bounded, overflow_loses_resync, no_queues, BrokerCall, register_call,
  publish_call,
}
use sriee.WebSocket.Stream.{
  stream_task_events, stream-Contiguous, stream_replays, Contiguous, finished,
}
use sriee.WebSocket.Session.{Session, turn, error_frame, bad_json, drop_old}
use sriee.WebSocket.Live.{live_contiguous, bad_frame_loses_message, Followed}
use sriee.WebSocket.Frames.{on_messages}

runs : Unit {0}
unfolding create_or_get lookup insert str_beq events_of prefixed is_hex is_task_id run_calls
    Publish.run_calls open_connection subscribe register broker_subscribe drop_old has_task
runs = tt

abbrev tid : Str
tid = codes "tsk_00112233445566778899aabbccddeeff"

abbrev conn : Str
conn = codes "ws_1"

abbrev ann : Principal
ann = record { actor_id = codes "ann"; device_id = codes "laptop"; contract_version = codes "1.0" }

abbrev event_at : Str → ℕ → TaskEvent
event_at t n = record {
  event_id = codes "evt_x";
  task_id = t;
  sequence = n;
  event_type = codes "task.progress";
  schema_version = codes "1.0";
  occurred_at = 0;
  correlation_id = codes "c";
  details = [];
}

stream_replays_example : stream_task_events 3 (λ k. one_task) ann tid (pos 0) (pos 100) ≡ (
  drop 0 (events_of tid one_task.events),
  finished (pos (0 + length (drop 0 (events_of tid one_task.events)))),
)
unfolding runs
stream_replays_example =
    stream_replays 3 one_task ann tid 0 100 one_task-IsValid refl refl (omega arith) (omega arith)
      (omega arith)

stream-Contiguous_example :
    Contiguous 0 (stream_task_events 2 (λ k. one_task) ann tid (pos 0) (pos 100))
stream-Contiguous_example =
    stream-Contiguous 2 (λ k. one_task) ann tid 0 100 (λ k. one_task-IsValid)

registry_bounded_example :
    let r =
      run_calls
        (open_call (codes "1") ann (codes "1.0") ∷ subscribe_call conn tid ∷ [])
        (no_connections 32 16) in
    (count r ≤ 32) × (1 ≤ 16)
unfolding runs
registry_bounded_example =
    registry_bounded 32 16 (open_call (codes "1") ann (codes "1.0") ∷ subscribe_call conn tid ∷ [])
      conn
      (record {
        connection_id = conn;
        principal = ann;
        protocol_version = codes "1.0";
        subscriptions = tid ∷ [];
      })
      refl

abbrev other : Str
other = codes "tsk_other"

-- A queue of size 2 that is full; the other task's subscription is gone, and its resync waits.
abbrev full_broker : Broker
full_broker = record {
  queue_size = 2;
  queues = (conn, resync other (codes "buffer_overflow") ∷ event tid (event_at tid 1) ∷ []) ∷ [];
  subscriptions = (conn, tid ∷ []) ∷ [];
}

publish_delivers_example :
    (lookup conn (publish (event_at tid 2) full_broker).queues
      ≡ some (resync tid (codes "buffer_overflow") ∷ []))
    × (lookup conn (publish (event_at tid 2) full_broker).subscriptions ≡ some [])
unfolding runs discard_task
publish_delivers_example = publish_delivers (event_at tid 2) conn full_broker (refl, tt) refl refl

queues_bounded_example : 0 ≤ 128
unfolding runs
queues_bounded_example = queues_bounded 128 (register_call conn ∷ []) conn [] (omega arith) refl

overflow_loses_resync_example :
    lookup conn (publish (event_at other 5) (publish (event_at tid 2) full_broker)).queues
    ≡ some (resync tid (codes "buffer_overflow") ∷ [])
unfolding runs
overflow_loses_resync_example =
    overflow_loses_resync (event_at tid 2) (event_at other 5) conn (codes "buffer_overflow") []
      (event tid (event_at tid 1) ∷ []) full_broker (refl, tt) refl refl refl refl refl

abbrev session : Session
session = record {
  connection_id = conn;
  principal = ann;
  cursors = (tid, pos 1) ∷ [];
  timestamps = [];
  registry = no_connections 32 16;
  broker = full_broker;
}

-- The next event, the same again, another task's, and one behind a gap.
abbrev messages : List BrokerMessage
messages =
    event tid (event_at tid 2)
    ∷ event tid (event_at tid 2)
    ∷ event other (event_at other 5)
    ∷ event tid (event_at tid 4)
    ∷ event tid (event_at tid 5)
    ∷ []

live_contiguous_example : Followed tid 1 messages (on_messages messages session)
unfolding runs
live_contiguous_example =
    live_contiguous tid 1 messages session (refl, (refl, (refl, (refl, (refl, tt))))) refl

bad_frame_loses_message_example :
    let x =
      turn
        (record { max_frame_bytes = 65536; max_messages_per_minute = 120 })
        1
        (λ k. empty)
        (some (record { bytes = 3; now = 7; parsed = bad_json }))
        true
        session in
    (lookup conn x.0.broker.queues ≡ some (event tid (event_at tid 1) ∷ []))
    × (x.1 ≡ error_frame (codes "invalid_json") ∷ [])
    × (x.0.cursors ≡ session.cursors)
unfolding runs
bad_frame_loses_message_example =
    bad_frame_loses_message (record { max_frame_bytes = 65536; max_messages_per_minute = 120 }) 1
      (λ k. empty) 3 7 session (resync other (codes "buffer_overflow"))
      (event tid (event_at tid 1) ∷ []) refl (omega arith) (omega arith)

abbrev first_connection : Session
first_connection = record {
  connection_id = conn;
  principal = ann;
  cursors = [];
  timestamps = [];
  registry = record (no_connections 32 16) {
    connections = (conn, new_connection (codes "1") ann (codes "1.0")) ∷ [];
  };
  broker = record (no_queues 8) { queues = (conn, []) ∷ []; subscriptions = (conn, []) ∷ [] };
}

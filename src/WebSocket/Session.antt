-- ===== src/WebSocket/Session.antt =====
-- One turn of the loop of `openWebSocketSession` in backend/src/jarvis/websocket/session.py: what it
-- does with a frame from the desktop and with a message of the broker. Parsed JSON is seen as far as
-- the code looks at it; times are microseconds; what is sent is returned.
use sriee.Base.{
  ℕ, ℤ, pos, negsuc, suc, ◌+◌, Bool, false, not, Option, none, some, List, [], ◌∷◌, ◌++◌, map, ltb,
  leb, if◌then◌else◌, str_eq, nat_eq, length, ◌==◌, ◌&&◌,
}
use sriee.Text.{Str, codes}
use sriee.Dict.{Dict, lookup, insert, pop}
use sriee.Tasks.Errors.{TaskError}
use sriee.Tasks.Model.{TaskEvent}
use sriee.Tasks.Repository.{Repository}
use sriee.Tasks.Service.{Principal}
use sriee.WebSocket.Registry.{Registry, subscribe, unsubscribe}
use sriee.WebSocket.Broker.{Broker, BrokerMessage, broker_subscribe, broker_unsubscribe}
use sriee.WebSocket.Stream.{StreamEnd, stream_task_events}

-- The frames that the server sends.
pub data Output : Type 0 where
  pong : Output
  error_frame : Str → Output
  task_event : TaskEvent → Output
  task_subscribed : Str → ℤ → Output
  task_unsubscribed : Str → Output
  resync_required : Str → ℤ → Str → Output

-- `payload.get("after_sequence", 0)`: an integer (0 where it is missing), or something else.
pub data AfterSequence : Type 0 where
  int : ℤ → AfterSequence
  other : AfterSequence

-- `payload`: no object (then `.get` raises), or an object; `none` is a `task_id` that is no text.
pub data Payload : Type 0 where
  not_object : Payload
  object : Option Str → AfterSequence → Payload

-- A received text: its UTF-8 length, the time, and the parsed JSON with its `type` if that is a text;
-- `bad_json` is a `JSONDecodeError`.
pub data Parsed : Type 0 where
  bad_json : Parsed
  no_object : Parsed
  frame : Option Str → Payload → Parsed

pub record Received : Type 0 where
  pub bytes : ℕ
  pub now : ℕ
  pub parsed : Parsed

pub record Limits : Type 0 where
  pub max_frame_bytes : ℕ
  pub max_messages_per_minute : ℕ

pub record Session : Type 0 where
  pub connection_id : Str
  pub principal : Principal
  pub cursors : Dict Str ℤ
  pub timestamps : List ℕ
  pub registry : Registry
  pub broker : Broker

-- How a handler leaves the loop's body: at its end, by `continue`, by closing the socket with a
-- code, or by an exception; `replaying` is a replay that has not ended within the fuel.
pub data Flow : Type 0 where
  proceed skip crash replaying : Flow
  close_socket : ℕ → Flow

abbrev pub Step : Type 0
Step = Session × List Output × Flow

-- `while timestamps and timestamps[0] <= now - 60: timestamps.popleft()`
unfoldable pub drop_old : ℕ → List ℕ → List ℕ
drop_old now [] = []
drop_old now (t ∷ ts) =
    let rest = drop_old now ts in if leb (t + 60000000) now then rest else t ∷ ts

abbrev pub leave_task : Str → Session → Session
leave_task task_id s = record s {
  registry = unsubscribe s.connection_id task_id s.registry;
  broker = broker_unsubscribe s.connection_id task_id s.broker;
}

-- What follows the replay.
unfoldable pub after_replay : Str → List TaskEvent × StreamEnd → Session → Step
after_replay task_id (sent, StreamEnd.finished cursor) s = (
  record s { cursors = insert task_id cursor s.cursors },
  map (λ e. task_event e) sent ++ task_subscribed task_id cursor ∷ [],
  proceed,
)
after_replay task_id (sent, StreamEnd.raised TaskError.task_not_found) s = (
  leave_task task_id s,
  map (λ e. task_event e) sent ++ error_frame (codes "subscription_denied") ∷ [],
  skip,
)
after_replay task_id (sent, StreamEnd.raised TaskError.invalid_pagination) s = (
  leave_task task_id s,
  map (λ e. task_event e) sent ++ error_frame (codes "subscription_denied") ∷ [],
  skip,
)
after_replay task_id (sent, StreamEnd.raised _) s = (s, map (λ e. task_event e) sent, crash)
after_replay task_id (sent, StreamEnd.out_of_fuel) s = (s, map (λ e. task_event e) sent, replaying)

-- The frame `task.subscribe`.
unfoldable pub on_subscribe : ℕ → (ℕ → Repository) → Payload → Session → Step
unfolding after_replay
on_subscribe fuel repository not_object s = (s, [], crash)
on_subscribe fuel repository (object none after) s =
    (s, error_frame (codes "invalid_subscription") ∷ [], skip)
on_subscribe fuel repository (object (some task_id) other) s =
    (s, error_frame (codes "invalid_subscription") ∷ [], skip)
on_subscribe fuel repository (object (some task_id) (int after)) s =
    let joined = subscribe s.connection_id task_id s.registry in
    if not joined.1
    then (record s { registry = joined.0 }, error_frame (codes "subscription_limit") ∷ [], skip)
    else after_replay task_id
        (stream_task_events fuel repository s.principal task_id after (pos 100))
        (record s {
          registry = joined.0;
          broker = broker_subscribe s.connection_id task_id s.broker;
        })

-- The frame `task.unsubscribe`.
unfoldable pub on_unsubscribe : Payload → Session → Step
on_unsubscribe not_object s = (s, [], crash)
on_unsubscribe (object none after) s = (s, [], proceed)
on_unsubscribe (object (some task_id) after) s = (
  leave_task task_id (record s { cursors = pop task_id s.cursors }),
  task_unsubscribed task_id ∷ [],
  proceed,
)

-- The dispatch on the frame's type.
unfoldable pub on_frame : ℕ → (ℕ → Repository) → Parsed → Session → Step
unfolding on_subscribe on_unsubscribe
on_frame fuel repository bad_json s = (s, error_frame (codes "invalid_json") ∷ [], skip)
on_frame fuel repository no_object s = (s, error_frame (codes "unknown_frame") ∷ [], proceed)
on_frame fuel repository (frame none payload) s =
    (s, error_frame (codes "unknown_frame") ∷ [], proceed)
on_frame fuel repository (frame (some type) payload) s =
    if type == codes "ping"
    then (s, pong ∷ [], proceed)
    else if type == codes "task.subscribe"
    then on_subscribe fuel repository payload s
    else if type == codes "task.unsubscribe"
    then on_unsubscribe payload s
    else (s, error_frame (codes "unknown_frame") ∷ [], proceed)

-- A received text: the size, the rate, then the frame.
unfoldable pub on_receive : Limits → ℕ → (ℕ → Repository) → Received → Session → Step
unfolding on_frame drop_old
on_receive limits fuel repository m s =
    let recent = drop_old m.now s.timestamps in
    if ltb limits.max_frame_bytes m.bytes
    then (s, [], close_socket 1009)
    else if leb limits.max_messages_per_minute (length recent)
    then (record s { timestamps = recent }, [], close_socket 4408)
    else on_frame fuel repository m.parsed (record s { timestamps = recent ++ m.now ∷ [] })

-- `message.event.sequence <= cursor` and `== cursor + 1`
abbrev pub is_old : ℕ → ℤ → Bool
is_old sequence (pos c) = leb sequence c
is_old sequence (negsuc c) = false

abbrev pub is_next : ℕ → ℤ → Bool
is_next sequence (pos c) = sequence == suc c
is_next sequence (negsuc c) = sequence == 0 && c == 0

-- A message of the broker for a task with this cursor.
unfoldable pub on_live : BrokerMessage → ℤ → Session → Session × List Output
on_live (BrokerMessage.resync task_id reason) cursor s = (
  record s {
    cursors = pop task_id s.cursors;
    registry = unsubscribe s.connection_id task_id s.registry;
  },
  resync_required task_id cursor reason ∷ [],
)
on_live (BrokerMessage.event task_id e) cursor s =
    if is_old e.sequence cursor
    then (s, [])
    else if not (is_next e.sequence cursor)
    then (
      leave_task task_id (record s { cursors = pop task_id s.cursors }),
      resync_required task_id cursor (codes "sequence_gap") ∷ [],
    )
    else (record s { cursors = insert task_id (pos e.sequence) s.cursors }, task_event e ∷ [])

abbrev pub message_task : BrokerMessage → Str
message_task (BrokerMessage.resync task_id reason) = task_id
message_task (BrokerMessage.event task_id e) = task_id

-- A message of the broker; one for a task without a cursor is passed over.
unfoldable pub on_message : BrokerMessage → Session → Session × List Output
unfolding on_live
on_message m s = elim (lookup (message_task m) s.cursors) [
  | none ↦ (s, [])
  | some cursor ↦ on_live m cursor s
]

-- `queue.get()` of the connection's queue, when it has a message.
unfoldable pub take_message : Session → Session × Option BrokerMessage
take_message s = elim (lookup s.connection_id s.broker.queues) [
  | none ↦ (s, none)
  | some queue ↦ elim queue [
    | [] ↦ (s, none)
    | m ∷ rest ↦ (
      record s {
        broker = record s.broker { queues = insert s.connection_id rest s.broker.queues };
      },
      some m,
    )
  ]
]

abbrev on_taken : Option BrokerMessage → Session × List Output → Step
on_taken none (s, sent) = (s, sent, proceed)
on_taken (some m) (s, sent) = let live = on_message m s in (live.0, sent ++ live.1, proceed)

-- The rest of the body behind the handling of a frame: `continue` and `return` leave it.
abbrev finish_turn : Option BrokerMessage → Step → Step
finish_turn m (s, sent, proceed) = on_taken m (s, sent)
finish_turn m (s, sent, skip) = (s, sent, skip)
finish_turn m (s, sent, crash) = (s, sent, crash)
finish_turn m (s, sent, replaying) = (s, sent, replaying)
finish_turn m (s, sent, close_socket code) = (s, sent, close_socket code)

-- One turn: `asyncio.wait` has a received text, a message that `queue.get()` has taken, or both.
unfoldable pub turn : Limits → ℕ → (ℕ → Repository) → Option Received → Bool → Session → Step
unfolding on_receive on_message take_message
turn limits fuel repository received woken s =
    let taken = if woken then take_message s else (s, none) in
    elim received [
      | none ↦ on_taken taken.1 (taken.0, [])
      | some m ↦ finish_turn taken.1 (on_receive limits fuel repository m taken.0)
    ]

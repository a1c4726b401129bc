-- ===== src/WebSocket/Broker.antt =====
-- `InMemoryTaskEventBroker` of backend/src/jarvis/websocket/session.py. A queue is the list of its
-- messages, the oldest first; `unregister` drops it.
use sriee.Base.{
  ℕ, ◌≤◌, ◌≡◌, none, some, List, [], ◌∷◌, ◌++◌, ltb, ◌&&◌, if◌then◌else◌, str_eq, length,
}
use sriee.Text.{Str, codes}
use sriee.Dict.{Dict, lookup, insert, pop, contains}
use sriee.Tasks.Model.{TaskEvent}
use sriee.WebSocket.Registry.{has_task, add_task, discard_task}

-- `BrokerMessage`: `kind` is "event" or "resync".
pub data BrokerMessage : Type 0 where
  event : Str → TaskEvent → BrokerMessage
  resync : Str → Str → BrokerMessage

pub record Broker : Type 0 where
  pub queue_size : ℕ
  pub queues : Dict Str (List BrokerMessage)
  pub subscriptions : Dict Str (List Str)

unfoldable pub register : Str → Broker → Broker
register connection_id b = record b {
  queues = insert connection_id [] b.queues;
  subscriptions = insert connection_id [] b.subscriptions;
}

unfoldable pub unregister : Str → Broker → Broker
unregister connection_id b = record b {
  queues = pop connection_id b.queues;
  subscriptions = pop connection_id b.subscriptions;
}

-- `subscribe` and `unsubscribe` change the set of a connection that is registered.
unfoldable pub broker_subscribe : Str → Str → Broker → Broker
broker_subscribe connection_id task_id b = elim (lookup connection_id b.subscriptions) [
  | none ↦ b
  | some tasks ↦ record b {
    subscriptions = insert connection_id (add_task task_id tasks) b.subscriptions;
  }
]

unfoldable pub broker_unsubscribe : Str → Str → Broker → Broker
broker_unsubscribe connection_id task_id b = elim (lookup connection_id b.subscriptions) [
  | none ↦ b
  | some tasks ↦ record b {
    subscriptions = insert connection_id (discard_task task_id tasks) b.subscriptions;
  }
]

-- The connections that `publish` reaches.
unfoldable pub targets : TaskEvent → Dict Str (List BrokerMessage) → Dict Str (List Str) → List Str
targets e queues [] = []
targets e queues ((connection_id, tasks) ∷ subscriptions) =
    let rest = targets e queues subscriptions in
    if has_task e.task_id tasks && contains connection_id queues then connection_id ∷ rest else rest

-- `put_nowait`, and what replaces the queue when it is full.
unfoldable pub enqueue : ℕ → TaskEvent → List BrokerMessage → List BrokerMessage
enqueue size e queue =
    if ltb (length queue) size
    then queue ++ event e.task_id e ∷ []
    else resync e.task_id (codes "buffer_overflow") ∷ []

unfoldable pub deliver : TaskEvent → Str → Broker → Broker
deliver e connection_id b = elim (lookup connection_id b.queues) [
  | none ↦ b
  | some queue ↦
      let b' = record b { queues = insert connection_id (enqueue b.queue_size e queue) b.queues } in
      if ltb (length queue) b.queue_size then b' else broker_unsubscribe connection_id e.task_id b'
]

unfoldable pub deliver_all : TaskEvent → List Str → Broker → Broker
deliver_all e [] b = b
deliver_all e (i ∷ is) b = deliver_all e is (deliver e i b)

unfoldable pub publish : TaskEvent → Broker → Broker
publish e b = deliver_all e (targets e b.queues b.subscriptions) b

-- Every queue is within the size that the broker was made with.
pub record IsBounded (b : Broker) : Type 0 where
  pub positive : 1 ≤ b.queue_size
  pub short :
      (i : Str) (q : List BrokerMessage) → lookup i b.queues ≡ some q → length q ≤ b.queue_size

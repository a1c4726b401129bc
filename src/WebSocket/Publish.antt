-- ===== src/WebSocket/Publish.antt =====
-- The fan-out of an event to the connections (`publish` of `InMemoryTaskEventBroker`,
-- backend/src/jarvis/websocket/session.py).
use sriee.Base.{
  ℕ, ◌≤◌, ◌≡◌, refl, true, false, not, some, List, [], ◌∷◌, ◌++◌, arith, ltb, ◌&&◌, ◌∙◌,
  if◌then◌else◌, str_eq, length, length-append, Option-cases, inl, inr,
}
use sriee.Text.{Str, codes}
use sriee.Dict.{lookup, lookup-insert_cases, lookup-pop, IsDistinct}
use sriee.Tasks.Model.{TaskEvent}
use sriee.WebSocket.Registry.{has_task, discard_task}
use sriee.WebSocket.Bounds.{has_task-discard_task}
use sriee.WebSocket.Broker.{
  Broker, BrokerMessage, event, resync, register, unregister, broker_subscribe, broker_unsubscribe,
  targets, enqueue, deliver, deliver_all, publish, IsBounded,
}
use sriee.WebSocket.Delivery.{
  deliver_all-queues, deliver_all-subscriptions_if, deliver-queue_size, deliver_all-IsDistinct,
}

-- Each connection is served on its own: one that takes the task gets the event at the end of its
-- queue if there is room, else its queue becomes one request to resynchronise and it takes the task
-- no longer; every other connection's queue and subscriptions stay as they are.
pub publish_delivers :
    (e : TaskEvent) (i : Str) (b : Broker) {q : List BrokerMessage} {ts : List Str}
    → IsDistinct b.subscriptions
    → lookup i b.queues ≡ some q
    → lookup i b.subscriptions ≡ some ts
    → let room = ltb (length q) b.queue_size in
      let served = has_task e.task_id ts in
      (lookup i (publish e b).queues
        ≡ some (
            if served
            then (if room
                then q ++ event e.task_id e ∷ []
                else resync e.task_id (codes "buffer_overflow") ∷ [])
            else q))
      × (lookup i (publish e b).subscriptions
          ≡ some (if served && not room then discard_task e.task_id ts else ts))
unfolding publish enqueue
publish_delivers e i b {q} {ts} d h g = (
  ground (arith, deliver_all-queues e i b.queues b.subscriptions b d h),
  ground (arith, deliver_all-subscriptions_if e i b.queues b.subscriptions b d h g),
)

enqueue-le :
    (size : ℕ) (e : TaskEvent) (q : List BrokerMessage)
    → 1 ≤ size
    → length (enqueue size e q) ≤ size
unfolding enqueue
enqueue-le size e q h = ground (arith, length-append q (event e.task_id e ∷ []))

deliver-IsBounded : (e : TaskEvent) (k : Str) (b : Broker) → IsBounded b → IsBounded (deliver e k b)
unfolding deliver broker_unsubscribe
deliver-IsBounded e k b v = record {
  positive = ground (arith, v.positive);
  short = λ i q h. elim (Option-cases (lookup k b.queues)) [
    | inl missing ↦ ground (arith, v.short i q)
    | inr (p, at) ↦ ground (
      arith,
      lookup-insert_cases k i (enqueue b.queue_size e p) {w = q} b.queues,
      v.short i q,
      enqueue-le b.queue_size e p v.positive,
    )
  ];
}

deliver_all-IsBounded :
    (e : TaskEvent) (is : List Str) (b : Broker) → IsBounded b → IsBounded (deliver_all e is b)
unfolding deliver_all
deliver_all-IsBounded e [] b v = v
deliver_all-IsBounded e (i ∷ is) b v =
    deliver_all-IsBounded e is (deliver e i b) (deliver-IsBounded e i b v)

-- The calls that sessions and services make of the broker.
pub data BrokerCall : Type 0 where
  register_call unregister_call : Str → BrokerCall
  subscribe_call unsubscribe_call : Str → Str → BrokerCall
  publish_call : TaskEvent → BrokerCall

abbrev pub apply_call : BrokerCall → Broker → Broker
apply_call (register_call i) b = register i b
apply_call (unregister_call i) b = unregister i b
apply_call (subscribe_call i t) b = broker_subscribe i t b
apply_call (unsubscribe_call i t) b = broker_unsubscribe i t b
apply_call (publish_call e) b = publish e b

unfoldable pub run_calls : List BrokerCall → Broker → Broker
run_calls [] b = b
run_calls (c ∷ cs) b = run_calls cs (apply_call c b)

apply_call-IsBounded : (c : BrokerCall) (b : Broker) → IsBounded b → IsBounded (apply_call c b)
unfolding register unregister broker_subscribe broker_unsubscribe publish
apply_call-IsBounded (register_call i) b v = record {
  positive = v.positive;
  short =
      λ j q h. ground (arith, lookup-insert_cases i j [] {w = q} b.queues, v.short j q, v.positive);
}
apply_call-IsBounded (unregister_call i) b v = record {
  positive = v.positive;
  short = λ j q h. v.short j q (ground (arith, lookup-pop i j b.queues));
}
apply_call-IsBounded (subscribe_call i t) b v = record {
  positive = ground (arith, v.positive);
  short = λ j q h. ground (arith, v.short j q);
}
apply_call-IsBounded (unsubscribe_call i t) b v = record {
  positive = ground (arith, v.positive);
  short = λ j q h. ground (arith, v.short j q);
}
apply_call-IsBounded (publish_call e) b v =
    deliver_all-IsBounded e (targets e b.queues b.subscriptions) b v

run_calls-IsBounded : (cs : List BrokerCall) (b : Broker) → IsBounded b → IsBounded (run_calls cs b)
unfolding run_calls
run_calls-IsBounded [] b v = v
run_calls-IsBounded (c ∷ cs) b v =
    run_calls-IsBounded cs (apply_call c b) (apply_call-IsBounded c b v)

-- `InMemoryTaskEventBroker(queue_size=...)`
abbrev pub no_queues : ℕ → Broker
no_queues size = record { queue_size = size; queues = []; subscriptions = [] }

deliver_all-queue_size :
    (e : TaskEvent) (is : List Str) (b : Broker) → (deliver_all e is b).queue_size ≡ b.queue_size
unfolding deliver_all
deliver_all-queue_size e [] b = refl
deliver_all-queue_size e (i ∷ is) b =
    deliver_all-queue_size e is (deliver e i b) ∙ deliver-queue_size e i b

apply_call-queue_size : (c : BrokerCall) (b : Broker) → (apply_call c b).queue_size ≡ b.queue_size
unfolding register unregister broker_subscribe broker_unsubscribe publish
apply_call-queue_size (register_call i) b = refl
apply_call-queue_size (unregister_call i) b = refl
apply_call-queue_size (subscribe_call i t) b = ground arith
apply_call-queue_size (unsubscribe_call i t) b = ground arith
apply_call-queue_size (publish_call e) b =
    deliver_all-queue_size e (targets e b.queues b.subscriptions) b

run_calls-queue_size :
    (cs : List BrokerCall) (b : Broker) → (run_calls cs b).queue_size ≡ b.queue_size
unfolding run_calls
run_calls-queue_size [] b = refl
run_calls-queue_size (c ∷ cs) b =
    run_calls-queue_size cs (apply_call c b) ∙ apply_call-queue_size c b

-- Whatever is registered, subscribed and published, in any order, no queue of a broker that was made
-- with a positive size ever holds more messages than that size.
pub queues_bounded :
    (size : ℕ) (cs : List BrokerCall) (i : Str) (q : List BrokerMessage)
    → 1 ≤ size
    → lookup i (run_calls cs (no_queues size)).queues ≡ some q
    → length q ≤ size
queues_bounded size cs i q h at =
    let start : IsBounded (no_queues size) = record {
      positive = h;
      short = λ j p g. unfold lookup in absurd (cc);
    } in
    omega (
      arith,
      (run_calls-IsBounded cs (no_queues size) start).short i q at,
      run_calls-queue_size cs (no_queues size),
    )

-- After an event of one task has overflowed the queue of a connection, a request to resynchronise
-- another task that was waiting there is lost, and an event of that other task does not reach the
-- connection either.
pub overflow_loses_resync :
    (e e' : TaskEvent) (i : Str) (reason : Str) (older newer : List BrokerMessage) (b : Broker)
    {ts : List Str}
    → IsDistinct b.subscriptions
    → lookup i b.queues ≡ some (older ++ resync e'.task_id reason ∷ newer)
    → lookup i b.subscriptions ≡ some ts
    → length (older ++ resync e'.task_id reason ∷ newer) ≡ b.queue_size
    → has_task e.task_id ts ≡ true
    → has_task e'.task_id ts ≡ false
    → lookup i (publish e' (publish e b)).queues
      ≡ some (resync e.task_id (codes "buffer_overflow") ∷ [])
unfolding publish
overflow_loses_resync e e' i reason older newer b {ts} d h g full takes_e not_e' =
    let q = older ++ resync e'.task_id reason ∷ newer in
    let (at_q, at_t) = publish_delivers e i b {q = q} d h g in
    let at_q1 : lookup i (publish e b).queues
        ≡ some (resync e.task_id (codes "buffer_overflow") ∷ []) =
      ground (arith, at_q) in
    let at_t1 : lookup i (publish e b).subscriptions ≡ some (discard_task e.task_id ts) =
      ground (arith, at_t) in
    let d1 : IsDistinct (publish e b).subscriptions =
      deliver_all-IsDistinct e (targets e b.queues b.subscriptions) b d in
    let (at_q2, at_t2) = publish_delivers e' i (publish e b) d1 at_q1 at_t1 in
    ground (arith, at_q2, has_task-discard_task e.task_id e'.task_id ts)

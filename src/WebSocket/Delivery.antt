-- ===== src/WebSocket/Delivery.antt =====
-- What `publish` of `InMemoryTaskEventBroker` (backend/src/jarvis/websocket/session.py) does to the
-- queue and the subscriptions of each connection.
use sriee.Base.{
  ◌≡◌, refl, Bool, true, false, not, none, some, List, [], ◌∷◌, arith, ltb, ◌==◌, ◌&&◌,
  if◌then◌else◌, str_eq, str_beq, str_beq_iff, length, Bool-cases, Option-cases, inl, inr,
}
use sriee.Text.{Str}
use sriee.Dict.{Dict, lookup, contains, lookup-insert, IsDistinct, insert-IsDistinct}
use sriee.Tasks.Model.{TaskEvent}
use sriee.WebSocket.Registry.{has_task, discard_task}
use sriee.WebSocket.Broker.{
  Broker, BrokerMessage, broker_unsubscribe, targets, enqueue, deliver, deliver_all,
}

-- The connection takes events of the task.
abbrev pub takes : Str → Str → Dict Str (List Str) → Bool
takes task_id i subscriptions = elim (lookup i subscriptions) [
  | none ↦ false
  | some tasks ↦ has_task task_id tasks
]

deliver-queues :
    (e : TaskEvent) (k i : Str) (b : Broker) {q : List BrokerMessage}
    → lookup i b.queues ≡ some q
    → lookup i (deliver e k b).queues ≡ (if k == i then some (enqueue b.queue_size e q) else some q)
unfolding deliver broker_unsubscribe
deliver-queues e k i b {q} h = elim (Option-cases (lookup k b.queues)) [
  | inl missing ↦ ground (arith, str_beq_iff k i)
  | inr (p, at) ↦
      ground (arith, lookup-insert k i (enqueue b.queue_size e p) b.queues, str_beq_iff k i)
]

pub deliver-queue_size :
    (e : TaskEvent) (k : Str) (b : Broker) → (deliver e k b).queue_size ≡ b.queue_size
unfolding deliver broker_unsubscribe
deliver-queue_size e k b = ground arith

takes-cons :
    (t k i : Str) (tasks : List Str) (subs : Dict Str (List Str))
    → takes t i ((k, tasks) ∷ subs) ≡ (if k == i then has_task t tasks else takes t i subs)
unfolding lookup
takes-cons t k i tasks subs = ground arith

-- Over the connections that are reached, a queue takes the event once.
pub deliver_all-queues :
    (e : TaskEvent) (i : Str) (all_queues : Dict Str (List BrokerMessage))
    (subs : Dict Str (List Str)) (b : Broker) {q : List BrokerMessage}
    → IsDistinct subs
    → lookup i b.queues ≡ some q
    → lookup i (deliver_all e (targets e all_queues subs) b).queues ≡ (
        if contains i all_queues && takes e.task_id i subs
        then some (enqueue b.queue_size e q)
        else some q)
unfolding deliver_all targets
deliver_all-queues e i all_queues [] b d h = unfold lookup in ground arith
deliver_all-queues e i all_queues ((k, tasks) ∷ subs) b {q} d h =
    rw (takes-cons e.task_id k i tasks subs) (elim (Bool-cases (str_beq k i)) [
      | inl same ↦ ground (
        arith,
        str_beq_iff k i,
        deliver-queues e k i b h,
        deliver-queue_size e k b,
        deliver_all-queues e i all_queues subs b d.1 h,
        (λ (g : lookup i (deliver e k b).queues ≡ some (enqueue b.queue_size e q)).
            deliver_all-queues e i all_queues subs (deliver e k b) d.1 g),
      )
      | inr other ↦ ground (
        arith,
        str_beq_iff k i,
        deliver-queues e k i b h,
        deliver-queue_size e k b,
        deliver_all-queues e i all_queues subs b d.1 h,
        (λ (g : lookup i (deliver e k b).queues ≡ some q).
            deliver_all-queues e i all_queues subs (deliver e k b) d.1 g),
      )
    ])

deliver-subscriptions :
    (e : TaskEvent) (k i : Str) (b : Broker) {q : List BrokerMessage} {ts : List Str}
    → lookup i b.queues ≡ some q
    → lookup i b.subscriptions ≡ some ts
    → lookup i (deliver e k b).subscriptions ≡ (
        if k == i && not (ltb (length q) b.queue_size)
        then some (discard_task e.task_id ts)
        else some ts)
unfolding deliver broker_unsubscribe
deliver-subscriptions e k i b {q} {ts} h g = elim (Option-cases (lookup k b.queues)) [
  | inl missing ↦ ground (arith, str_beq_iff k i)
  | inr (p, at) ↦ elim (Option-cases (lookup k b.subscriptions)) [
    | inl silent ↦ ground (arith, str_beq_iff k i)
    | inr (us, at_us) ↦
        ground
          (arith, lookup-insert k i (discard_task e.task_id us) b.subscriptions, str_beq_iff k i)
  ]
]

deliver_all-subscriptions :
    (e : TaskEvent) (i : Str) (all_queues : Dict Str (List BrokerMessage))
    (subs : Dict Str (List Str)) (b : Broker) {q : List BrokerMessage} {ts : List Str}
    → IsDistinct subs
    → lookup i b.queues ≡ some q
    → lookup i b.subscriptions ≡ some ts
    → takes e.task_id i subs ≡ false
    → lookup i (deliver_all e (targets e all_queues subs) b).subscriptions ≡ some ts
unfolding deliver_all targets
deliver_all-subscriptions e i all_queues [] b d h g none_taken = g
deliver_all-subscriptions e i all_queues ((k, tasks) ∷ subs) b {q} {ts} d h g none_taken =
    let taken = takes-cons e.task_id k i tasks subs in
    ground (
      arith,
      taken,
      str_beq_iff k i,
      deliver-queues e k i b h,
      deliver-subscriptions e k i b h g,
      deliver-queue_size e k b,
      deliver_all-subscriptions e i all_queues subs b d.1 h g,
      (λ (m : lookup i (deliver e k b).queues ≡ some q).
          λ (n : lookup i (deliver e k b).subscriptions ≡ some ts).
            deliver_all-subscriptions e i all_queues subs (deliver e k b) d.1 m n),
    )

-- When the connection is the one that the loop is at, the rest of the loop passes it over.
deliver-then-rest :
    (e : TaskEvent) (i : Str) (all_queues : Dict Str (List BrokerMessage))
    (subs : Dict Str (List Str)) (b : Broker) {q : List BrokerMessage} {ts : List Str}
    → IsDistinct subs
    → lookup i b.queues ≡ some q
    → lookup i b.subscriptions ≡ some ts
    → takes e.task_id i subs ≡ false
    → lookup i (deliver_all e (targets e all_queues subs) (deliver e i b)).subscriptions
      ≡ (if not (ltb (length q) b.queue_size) then some (discard_task e.task_id ts) else some ts)
deliver-then-rest e i all_queues subs b {q} {ts} d h g passed =
    let self : str_beq i i ≡ true = (str_beq_iff i i).1 refl in
    let at_q : lookup i (deliver e i b).queues ≡ some (enqueue b.queue_size e q) =
      ground (arith, self, deliver-queues e i i b h) in
    elim (Bool-cases (ltb (length q) b.queue_size)) [
      | inl room ↦
          let at_t : lookup i (deliver e i b).subscriptions ≡ some ts =
            ground (arith, self, deliver-subscriptions e i i b h g) in
          rw room (deliver_all-subscriptions e i all_queues subs (deliver e i b) d at_q at_t passed)
      | inr full ↦
          let at_t : lookup i (deliver e i b).subscriptions ≡ some (discard_task e.task_id ts) =
            ground (arith, self, deliver-subscriptions e i i b h g) in
          rw full (deliver_all-subscriptions e i all_queues subs (deliver e i b) d at_q at_t passed)
    ]

pub deliver_all-subscriptions_if :
    (e : TaskEvent) (i : Str) (all_queues : Dict Str (List BrokerMessage))
    (subs : Dict Str (List Str)) (b : Broker) {q : List BrokerMessage} {ts : List Str}
    → IsDistinct subs
    → lookup i b.queues ≡ some q
    → lookup i b.subscriptions ≡ some ts
    → lookup i (deliver_all e (targets e all_queues subs) b).subscriptions ≡ (
        if contains i all_queues && (takes e.task_id i subs && not (ltb (length q) b.queue_size))
        then some (discard_task e.task_id ts)
        else some ts)
unfolding deliver_all targets
deliver_all-subscriptions_if e i all_queues [] b d h g = unfold lookup in ground arith
deliver_all-subscriptions_if e i all_queues ((k, tasks) ∷ subs) b {q} {ts} d h g =
    elim (Bool-cases (str_beq k i)) [
      | inl same ↦
          let eq : k ≡ i = (str_beq_iff k i).0 same in
          let passed : takes e.task_id i subs ≡ false = ground (arith, eq) in
          rw (takes-cons e.task_id k i tasks subs) (
            rw (same, eq)
              (ground (
                arith,
                deliver-then-rest e i all_queues subs b d.1 h g passed,
                deliver_all-subscriptions e i all_queues subs b d.1 h g passed,
              )))
      | inr other ↦ rw (takes-cons e.task_id k i tasks subs) (
          ground (
            arith,
            deliver-queues e k i b h,
            deliver-subscriptions e k i b h g,
            deliver-queue_size e k b,
            deliver_all-subscriptions_if e i all_queues subs b d.1 h g,
            (λ (m : lookup i (deliver e k b).queues ≡ some q)
                  (n : lookup i (deliver e k b).subscriptions ≡ some ts).
                deliver_all-subscriptions_if e i all_queues subs (deliver e k b) d.1 m n),
          ))
    ]

deliver-IsDistinct :
    (e : TaskEvent) (k : Str) (b : Broker)
    → IsDistinct b.subscriptions
    → IsDistinct (deliver e k b).subscriptions
unfolding deliver broker_unsubscribe
deliver-IsDistinct e k b d = elim (Option-cases (lookup k b.subscriptions)) [
  | inl silent ↦ ground arith
  | inr (us, at) ↦ ground (arith, insert-IsDistinct k (discard_task e.task_id us) b.subscriptions d)
]

pub deliver_all-IsDistinct :
    (e : TaskEvent) (is : List Str) (b : Broker)
    → IsDistinct b.subscriptions
    → IsDistinct (deliver_all e is b).subscriptions
unfolding deliver_all
deliver_all-IsDistinct e [] b d = d
deliver_all-IsDistinct e (i ∷ is) b d =
    deliver_all-IsDistinct e is (deliver e i b) (deliver-IsDistinct e i b d)

-- ===== src/Tasks/Once.antt =====
-- Retries: a creation, a cancellation and a decision take effect once, however often and however
-- much later they are asked for (backend/src/jarvis/tasks/repository.py).
use sriee.Base.{
  suc, length, ◌≡◌, true, false, some, arith, str_eq, ◌==◌, inl, inr, Option-cases, str_beq_iff,
  if◌then◌else◌,
}
use sriee.Text.{Str}
use sriee.Dict.{lookup, lookup-insert_self}
use sriee.Tasks.Errors.{ok, err, TaskError}
use sriee.Tasks.Model.{
  TaskCreationBundle, TaskCreationOutcome, TaskCancellationOutcome, TaskProjectionRecord,
  TaskRecord, ApprovalRecord, ApprovalDecision, ApprovalDecisionOutcome, scope_eq,
}
use sriee.Tasks.Repository.{
  Repository, create_or_get, scope_of, new_outcome, owned_projection, events_of,
}
use sriee.Tasks.Control.{
  Stamp, request_cancellation, cancellation_outcome, decide_approval, owned_approval, is_pending,
  decided,
}
use sriee.Tasks.Invariant.{IsValid}
use sriee.Tasks.Invariant.Methods.{
  owned_projection_lem, owned_approval_lem, next_of_valid, request_cancellation-IsValid,
}
use sriee.Tasks.Steps.{Steps, Steps-IsValid, NeverFiled}
use sriee.Tasks.Frame.{cancel-tasks}
use sriee.Tasks.Kept.{Steps-remembered, Steps-cancelled, Steps-settled, Steps-tasks}

-- What a call returned is what its scope now remembers, up to the `created` flag.
create_or_get-remembers :
    (b : TaskCreationBundle) (r : Repository) {o : TaskCreationOutcome}
    → (create_or_get b r).1 ≡ ok o
    → (p : TaskCreationOutcome) × (lookup (scope_of b.task) (create_or_get b r).0.by_idempotency
        ≡ some p)
      × (p.task ≡ o.task)
      × (p.event ≡ o.event)
      × (p.outbox ≡ o.outbox)
unfolding create_or_get
create_or_get-remembers b r {o} h =
    elim (Option-cases (lookup (scope_of b.task) r.by_idempotency)) [
      | inl free ↦ (
        new_outcome b,
        ground (arith, lookup-insert_self (scope_of b.task) (new_outcome b) r.by_idempotency),
        ground arith,
        ground arith,
        ground arith,
      )
      | inr (p, taken) ↦ (p, ground arith, ground arith, ground arith, ground arith)
    ]

-- After a creation has succeeded, and any calls later, a creation under the same actor, device and
-- idempotency key changes nothing: it returns the first outcome, marked as not created, if the
-- request hashes agree, and is a conflict if they differ.
pub create_or_get_once :
    (b b' : TaskCreationBundle) (r : Repository) {r' : Repository} {o : TaskCreationOutcome}
    → (create_or_get b r).1 ≡ ok o
    → Steps (create_or_get b r).0 r'
    → scope_of b'.task ≡ scope_of b.task
    → create_or_get b' r' ≡ (
      r',
      (if o.task.request_hash == b'.task.request_hash
          then ok (record o { created = false })
          else err TaskError.idempotency_conflict),
    )
unfolding create_or_get
create_or_get_once b b' r {r'} {o} h steps same =
    let (p, at, same_task, same_event, same_outbox) = create_or_get-remembers b r h in
    let at' : lookup (scope_of b'.task) r'.by_idempotency ≡ some p =
      rw same (Steps-remembered (scope_of b.task) steps at) in
    rw (at', create_or_get) (ground arith)

-- A request for cancellation that was recorded stays under the task, and its owner is known.
cancel-remembers :
    (t x y : Str) (s : Stamp) (r : Repository) {o : TaskCancellationOutcome}
    → IsValid r
    → (request_cancellation t x y s r).1 ≡ ok (some o)
    → o.cancellation_requested ≡ true
    → (c : TaskCancellationOutcome) × (lookup t (request_cancellation t x y s r).0.cancellations
        ≡ some c)
      × (record c { created = false } ≡ record o { created = false })
unfolding request_cancellation
cancel-remembers t x y s r {o} v h e = elim (Option-cases (owned_projection t x y r)) [
  | inl hidden ↦ ground arith
  | inr (p, seen) ↦ elim (Option-cases (lookup t r.cancellations)) [
    | inr (c, old) ↦ (c, ground arith, ground arith)
    | inl new ↦
        let n = suc (length (events_of t r.events)) in
        let numbered = (next_of_valid r t v (owned_projection_lem t x y r seen).0).1 in
        (
          cancellation_outcome t n p s,
          ground (
            arith,
            numbered,
            lookup-insert_self t (cancellation_outcome t n p s) r.cancellations,
          ),
          ground (arith, numbered),
        )
  ]
]

cancel-owner :
    (t x y : Str) (s : Stamp) (r : Repository) {o : TaskCancellationOutcome}
    → (request_cancellation t x y s r).1 ≡ ok (some o)
    → (p : TaskProjectionRecord) × (owned_projection t x y r ≡ some p)
unfolding request_cancellation
cancel-owner t x y s r h = elim (Option-cases (owned_projection t x y r)) [
  | inl hidden ↦ ground arith
  | inr seen ↦ seen
]

-- The owner of a task stays its owner.
pub owner_stays :
    (t x y : Str) {r r' : Repository} {p : TaskProjectionRecord}
    → IsValid r
    → IsValid r'
    → ((k : TaskRecord) → lookup t r.tasks ≡ some k → lookup t r'.tasks ≡ some k)
    → owned_projection t x y r ≡ some p
    → (q : TaskProjectionRecord) × (owned_projection t x y r' ≡ some q)
owner_stays t x y {r} {r'} {p} v v' kept h =
    let (at, actor, device) = owned_projection_lem t x y r h in
    let (k, at_k, id, k_actor, k_device) = v.represented t p at in
    let at' : lookup t r'.tasks ≡ some k = kept k at_k in
    elim (Option-cases (lookup t r'.projections)) [
      | inl missing ↦ ground (arith, v'.projected t)
      | inr (q, at_q) ↦
          let (k', at_k', id', k_actor', k_device') = v'.represented t q at_q in
          (q, ground (arith, str_beq_iff q.actor_id x, str_beq_iff q.device_id y))
    ]

cancel_keeps_tasks :
    (t x y : Str) (s : Stamp) (r : Repository) {r' : Repository}
    → Steps (request_cancellation t x y s r).0 r'
    → (k : TaskRecord) → lookup t r.tasks ≡ some k
    → lookup t r'.tasks ≡ some k
cancel_keeps_tasks t x y s r steps k h = Steps-tasks t steps (rw (cancel-tasks t x y s r) h)

-- Once a cancellation has been recorded in a well-formed repository, any calls later, the owner's
-- next request for it changes nothing and returns the recorded outcome, marked as not created.
pub request_cancellation_once :
    (t x y : Str) (s s' : Stamp) (r : Repository) {r' : Repository} {o : TaskCancellationOutcome}
    → IsValid r
    → (request_cancellation t x y s r).1 ≡ ok (some o)
    → o.cancellation_requested ≡ true
    → Steps (request_cancellation t x y s r).0 r'
    → request_cancellation t x y s' r' ≡ (r', ok (some (record o { created = false })))
unfolding request_cancellation
request_cancellation_once t x y s s' r {r'} {o} v h e steps =
    let (c, at, same) = cancel-remembers t x y s r v h e in
    let (p, seen) = cancel-owner t x y s r h in
    let v' = Steps-IsValid steps (request_cancellation-IsValid t x y s r v) in
    let (q, seen') = owner_stays t x y v v' (cancel_keeps_tasks t x y s r steps) seen in
    let at' = Steps-cancelled t steps at in ground (arith, seen', at', same)

decide-settles :
    (i x y g : Str) (d : ApprovalDecision) (s : Stamp) (r : Repository)
    {o : ApprovalDecisionOutcome}
    → (decide_approval i x y g d s r).1 ≡ ok (some o)
    → (a : ApprovalRecord) × (lookup i (decide_approval i x y g d s r).0.approvals ≡ some a)
      × (is_pending a.status ≡ false)
      × (a.actor_id ≡ x)
      × (a.device_id ≡ y)
unfolding decide_approval
decide-settles i x y g d s r h = elim (Option-cases (owned_approval i x y r)) [
  | inl hidden ↦ ground arith
  | inr (a, seen) ↦
      let (at, actor, device) = owned_approval_lem i x y r seen in
      (
        decided a d s.at,
        ground (arith, lookup-insert_self i (decided a d s.at) r.approvals),
        ground arith,
        actor,
        device,
      )
]

-- After a decision has been accepted, and any calls later that do not file an approval under its
-- identifier again, every further decision by its owner, of either kind, with any digest and at any
-- time, is refused as consumed and changes nothing.
pub decide_approval_once :
    (i x y g g' : Str) (d d' : ApprovalDecision) (s s' : Stamp) (r : Repository) {r' : Repository}
    {o : ApprovalDecisionOutcome}
    → (decide_approval i x y g d s r).1 ≡ ok (some o)
    → (steps : Steps (decide_approval i x y g d s r).0 r') → NeverFiled i steps
    → decide_approval i x y g' d' s' r' ≡ (r', err TaskError.approval_consumed)
unfolding decide_approval
decide_approval_once i x y g g' d d' s s' r {r'} h steps n =
    let (a, at, settled, actor, device) = decide-settles i x y g d s r h in
    let at' = Steps-settled i steps n settled at in
    ground (arith, at', str_beq_iff a.actor_id x, str_beq_iff a.device_id y)

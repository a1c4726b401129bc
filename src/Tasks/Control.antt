-- ===== src/Tasks/Control.antt =====
-- The control methods of `InMemoryTaskRepository` (backend/src/jarvis/tasks/repository.py):
-- cancellation, the decision of an approval, and the test helper that files a pending approval.
pub mod Access
pub mod Decision
pub mod Effects
use sriee.Base.{
  ℕ, Bool, true, false, not, ◌&&◌, Option, none, some, [], ◌∷◌, ◌++◌, leb, ◌==◌, if◌then◌else◌,
  str_eq,
}
use sriee.Text.{Str, codes}
use sriee.Dict.{lookup, insert}
use sriee.Tasks.Errors.{Result, ok, err, TaskError}
use sriee.Tasks.Model.{
  TaskStatus, TaskEvent, OutboxRecord, PendingApprovalProjection, TaskProjectionRecord,
  TaskCancellationOutcome, ApprovalRecord, ApprovalStatus, ApprovalDecision,
  ApprovalDecisionOutcome, Datum,
}
use sriee.Tasks.Repository.{Repository, owned_projection, events_of, next_sequence}

-- The set `terminal` of `request_cancellation`.
abbrev pub is_terminal : TaskStatus → Bool
is_terminal TaskStatus.succeeded = true
is_terminal TaskStatus.partially_succeeded = true
is_terminal TaskStatus.failed = true
is_terminal TaskStatus.cancelled = true
is_terminal TaskStatus.denied = true
is_terminal TaskStatus.expired = true
is_terminal _ = false

-- `TaskStatus.value`
abbrev pub status_value : TaskStatus → Str
status_value TaskStatus.created = codes "created"
status_value TaskStatus.planning = codes "planning"
status_value TaskStatus.cancellation_requested = codes "cancellation_requested"
status_value TaskStatus.awaiting_approval = codes "awaiting_approval"
status_value TaskStatus.executing = codes "executing"
status_value TaskStatus.verifying = codes "verifying"
status_value TaskStatus.succeeded = codes "succeeded"
status_value TaskStatus.partially_succeeded = codes "partially_succeeded"
status_value TaskStatus.failed = codes "failed"
status_value TaskStatus.cancelled = codes "cancelled"
status_value TaskStatus.denied = codes "denied"
status_value TaskStatus.expired = codes "expired"

-- `ApprovalDecision.value`
abbrev pub decision_value : ApprovalDecision → Str
decision_value ApprovalDecision.approve = codes "approve"
decision_value ApprovalDecision.deny = codes "deny"

-- What a call of the control methods is given besides the task: the two `uuid4().hex`, the
-- correlation identifier and the time.
pub record Stamp : Type 0 where
  pub event_uuid : Str
  pub outbox_uuid : Str
  pub correlation_id : Str
  pub at : ℕ

unfoldable pub cancellation_event : Str → TaskProjectionRecord → ℕ → Stamp → TaskEvent
cancellation_event task_id p sequence s = record {
  event_id = codes "evt_" ++ s.event_uuid;
  task_id = task_id;
  sequence = sequence;
  event_type = codes "task.cancellation_requested";
  schema_version = codes "1.0";
  occurred_at = s.at;
  correlation_id = s.correlation_id;
  details = (codes "previous_status", Datum.str (status_value p.status)) ∷ [];
}

unfoldable pub cancellation_outbox : Str → ℕ → Stamp → OutboxRecord
cancellation_outbox task_id sequence s = record {
  outbox_id = codes "out_" ++ s.outbox_uuid;
  event_type = codes "graph.task.cancel.requested";
  schema_version = codes "1.0";
  aggregate_id = task_id;
  occurred_at = s.at;
  correlation_id = s.correlation_id;
  details =
      (codes "task_id", Datum.str task_id) ∷ (codes "event_sequence", Datum.int sequence) ∷ [];
}

unfoldable pub cancellation_outcome :
    Str → ℕ → TaskProjectionRecord → Stamp → TaskCancellationOutcome
cancellation_outcome task_id sequence p s = record {
  task_id = task_id;
  status = TaskStatus.cancellation_requested;
  cancellation_requested = true;
  created = true;
  event = some (cancellation_event task_id p sequence s);
  outbox = some (cancellation_outbox task_id sequence s);
}

-- The writes of a cancellation that is new.
unfoldable pub cancel_at : Str → ℕ → TaskProjectionRecord → Stamp → Repository → Repository
unfolding cancellation_event cancellation_outbox cancellation_outcome
cancel_at task_id sequence p s r = record r {
  events = r.events ++ cancellation_event task_id p sequence s ∷ [];
  outbox = r.outbox ++ cancellation_outbox task_id sequence s ∷ [];
  projections =
      insert task_id (record p { status = TaskStatus.cancellation_requested; updated_at = s.at })
        r.projections;
  cancellations = insert task_id (cancellation_outcome task_id sequence p s) r.cancellations;
}

-- The answer for a task that has ended.
abbrev pub ended_outcome : Str → TaskProjectionRecord → TaskCancellationOutcome
ended_outcome task_id p = record {
  task_id = task_id;
  status = p.status;
  cancellation_requested = false;
  created = false;
  event = none;
  outbox = none;
}

-- The part behind the check of ownership.
unfoldable pub cancel_owned :
    Str
    → TaskProjectionRecord
    → Stamp
    → Repository
    → Repository × Result (Option TaskCancellationOutcome)
unfolding cancel_at
cancel_owned task_id p s r = elim (lookup task_id r.cancellations) [
  | some existing ↦ (r, ok (some (record existing { created = false })))
  | none ↦
      if is_terminal p.status
      then (r, ok (some (ended_outcome task_id p)))
      else elim (next_sequence (events_of task_id r.events)) [
        | none ↦ (r, err TaskError.empty_max)
        | some sequence ↦ (
          cancel_at task_id sequence p s r,
          ok (some (cancellation_outcome task_id sequence p s)),
        )
      ]
]

unfoldable pub request_cancellation :
    Str → Str → Str → Stamp → Repository → Repository × Result (Option TaskCancellationOutcome)
unfolding cancel_owned
request_cancellation task_id actor_id device_id s r =
    elim (owned_projection task_id actor_id device_id r) [
      | none ↦ (r, ok none)
      | some p ↦ cancel_owned task_id p s r
    ]

abbrev pub is_pending : ApprovalStatus → Bool
is_pending ApprovalStatus.pending = true
is_pending _ = false

abbrev pub decided_status : ApprovalDecision → ApprovalStatus
decided_status ApprovalDecision.approve = ApprovalStatus.approved
decided_status ApprovalDecision.deny = ApprovalStatus.denied

abbrev pub resumed_status : ApprovalDecision → TaskStatus
resumed_status ApprovalDecision.approve = TaskStatus.executing
resumed_status ApprovalDecision.deny = TaskStatus.denied

abbrev pub decided : ApprovalRecord → ApprovalDecision → ℕ → ApprovalRecord
decided a d at = record a { status = decided_status d; decided_at = some at; decision = some d }

unfoldable pub decision_event : Str → ApprovalRecord → ApprovalDecision → ℕ → Stamp → TaskEvent
decision_event approval_id a d sequence s = record {
  event_id = codes "evt_" ++ s.event_uuid;
  task_id = a.task_id;
  sequence = sequence;
  event_type = codes "approval.decided";
  schema_version = codes "1.0";
  occurred_at = s.at;
  correlation_id = s.correlation_id;
  details =
      (codes "approval_id", Datum.str approval_id)
      ∷ (codes "action_id", Datum.str a.action_id)
      ∷ (codes "decision", Datum.str (decision_value d))
      ∷ [];
}

unfoldable pub decision_outbox : Str → ApprovalRecord → ApprovalDecision → ℕ → Stamp → OutboxRecord
decision_outbox approval_id a d sequence s = record {
  outbox_id = codes "out_" ++ s.outbox_uuid;
  event_type = codes "graph.approval.decided";
  schema_version = codes "1.0";
  aggregate_id = a.task_id;
  occurred_at = s.at;
  correlation_id = s.correlation_id;
  details =
      (codes "task_id", Datum.str a.task_id)
      ∷ (codes "approval_id", Datum.str approval_id)
      ∷ (codes "decision", Datum.str (decision_value d))
      ∷ (codes "event_sequence", Datum.int sequence)
      ∷ [];
}

-- The writes of a decision.
unfoldable pub decide_at :
    Str
    → ApprovalRecord
    → TaskProjectionRecord
    → ApprovalDecision
    → ℕ
    → Stamp
    → Repository
    → Repository
unfolding decision_event decision_outbox
decide_at approval_id a p d sequence s r = record r {
  approvals = insert approval_id (decided a d s.at) r.approvals;
  events = r.events ++ decision_event approval_id a d sequence s ∷ [];
  outbox = r.outbox ++ decision_outbox approval_id a d sequence s ∷ [];
  projections =
      insert a.task_id
        (record p { status = resumed_status d; pending_approval = none; updated_at = s.at })
        r.projections;
}

-- From the read of the projection on: `_projections[...]` raises on a missing key.
unfoldable pub decide_pending :
    Str
    → ApprovalRecord
    → ApprovalDecision
    → Stamp
    → Repository
    → Repository × Result (Option ApprovalDecisionOutcome)
unfolding decide_at
decide_pending approval_id a d s r = elim (lookup a.task_id r.projections) [
  | none ↦ (r, err TaskError.task_does_not_exist)
  | some p ↦ elim (next_sequence (events_of a.task_id r.events)) [
    | none ↦ (r, err TaskError.empty_max)
    | some sequence ↦ (
      decide_at approval_id a p d sequence s r,
      ok (
          some (record {
            approval = decided a d s.at;
            event = decision_event approval_id a d sequence s;
            outbox = decision_outbox approval_id a d sequence s;
          })),
    )
  ]
]

abbrev pub owned_approval : Str → Str → Str → Repository → Option ApprovalRecord
owned_approval approval_id actor_id device_id r = elim (lookup approval_id r.approvals) [
  | none ↦ none
  | some a ↦ if a.actor_id == actor_id && a.device_id == device_id then some a else none
]

unfoldable pub decide_approval :
    Str
    → Str
    → Str
    → Str
    → ApprovalDecision
    → Stamp
    → Repository
    → Repository × Result (Option ApprovalDecisionOutcome)
unfolding decide_pending
decide_approval approval_id actor_id device_id action_digest d s r =
    elim (owned_approval approval_id actor_id device_id r) [
      | none ↦ (r, ok none)
      | some a ↦
          if not (is_pending a.status)
          then (r, err TaskError.approval_consumed)
          else if leb a.expires_at s.at
          then (r, err TaskError.approval_expired)
          else if not (a.action_digest == action_digest)
          then (r, err TaskError.approval_digest_mismatch)
          else decide_pending approval_id a d s r
    ]

abbrev pub pending_projection : ApprovalRecord → PendingApprovalProjection
pending_projection a = record {
  approval_id = a.approval_id;
  action_id = a.action_id;
  risk_tier = codes "R2";
  expires_at = a.expires_at;
}

unfoldable pub put_pending_approval_for_test :
    ApprovalRecord → Repository → Repository × Result (Unit {0})
put_pending_approval_for_test a r = elim (lookup a.task_id r.projections) [
  | none ↦ (r, err TaskError.task_does_not_exist)
  | some p ↦
      if not (is_pending a.status)
      then (r, err TaskError.approval_must_be_pending)
      else if not (p.actor_id == a.actor_id && p.device_id == a.device_id)
      then (r, err TaskError.approval_ownership_mismatch)
      else (
        record r {
          approvals = insert a.approval_id a r.approvals;
          projections =
              insert a.task_id
                (record p {
                  status = TaskStatus.awaiting_approval;
                  pending_approval = some (pending_projection a);
                })
                r.projections;
        },
        ok tt,
      )
]

-- ===== src/Tasks/Control/Effects.antt =====
-- What can be read of the repository behind an accepted decision (backend/src/jarvis/tasks/repository.py).
use mathlib.Core.Path.{subst}
use sriee.Base.{
  ℕ, ◌+◌, length, ◌≡◌, refl, Option, none, some, [], ◌∷◌, ◌++◌, str_eq, nat_eq, ◌==◌, if◌then◌else◌,
  sym,
}
use sriee.Text.{Str, codes}
use sriee.Dict.{lookup, lookup-insert}
use sriee.Tasks.Errors.{Result, ok}
use sriee.Tasks.Model.{
  TaskProjectionRecord, TaskStatus, ApprovalStatus, ApprovalRecord, ApprovalDecision,
  ApprovalDecisionOutcome, TaskEvent, OutboxRecord, Datum,
}
use sriee.Tasks.Repository.{Repository, events_of}
use sriee.Tasks.Control.{
  Stamp, decide_approval, decided, decision_event, decision_outbox, decided_status, resumed_status,
  decision_value,
}
use sriee.Tasks.Sequence.{events_of-append}
use sriee.Tasks.Invariant.{IsValid}
use sriee.Tasks.Control.Decision.{Decidable, outcome, decide_approval-outcome}

-- An approval with its decision.
abbrev pub closed_by : ApprovalStatus → ApprovalDecision → ℕ → ApprovalRecord → ApprovalRecord
closed_by status d at a = record a { status = status; decided_at = some at; decision = some d }

-- The decision `d` of the approval `a`, which is `word` outside, has given the approval its status and the task its
-- own; nothing else that can be read has changed but the task's log and the outbox, which have grown by one.
pub record IsDecided (i : Str) (a : ApprovalRecord) (p : TaskProjectionRecord) (s : Stamp)
    (r : Repository) (d : ApprovalDecision) (status : ApprovalStatus) (task_status : TaskStatus)
    (word : Str) (x : Repository × Result (Option ApprovalDecisionOutcome)) : Type 0 where
  pub approvals :
      (j : Str)
      → lookup j x.0.approvals
        ≡ (if i == j then some (closed_by status d s.at a) else lookup j r.approvals)
  pub projections :
      (u : Str)
      → lookup u x.0.projections ≡ (
          if a.task_id == u
          then some (record p { status = task_status; pending_approval = none; updated_at = s.at })
          else lookup u r.projections)
  pub event : TaskEvent
  pub logs :
      (u : Str)
      → events_of u x.0.events
        ≡ (if a.task_id == u then events_of u r.events ++ event ∷ [] else events_of u r.events)
  pub numbered : event.sequence ≡ length (events_of a.task_id r.events) + 1
  pub named : event.event_id ≡ codes "evt_" ++ s.event_uuid
  pub typed : event.event_type ≡ codes "approval.decided"
  pub timed : (event.occurred_at ≡ s.at) × (event.correlation_id ≡ s.correlation_id)
  pub said :
      event.details
      ≡ (codes "approval_id", Datum.str i)
        ∷ (codes "action_id", Datum.str a.action_id)
        ∷ (codes "decision", Datum.str word)
        ∷ []
  pub message : OutboxRecord
  pub published : x.0.outbox ≡ r.outbox ++ message ∷ []
  pub addressed :
      (message.outbox_id ≡ codes "out_" ++ s.outbox_uuid)
      × (message.event_type ≡ codes "graph.approval.decided")
      × (message.aggregate_id ≡ a.task_id)
  pub sent :
      message.details
      ≡ (codes "task_id", Datum.str a.task_id)
        ∷ (codes "approval_id", Datum.str i)
        ∷ (codes "decision", Datum.str word)
        ∷ (codes "event_sequence", Datum.int event.sequence)
        ∷ []
  pub untouched :
      (x.0.tasks ≡ r.tasks)
      × (x.0.by_idempotency ≡ r.by_idempotency)
      × (x.0.cancellations ≡ r.cancellations)
  pub answer :
      x.1
      ≡ ok (some (record { approval = closed_by status d s.at a; event = event; outbox = message }))

outcome-IsDecided :
    (i : Str) (d : ApprovalDecision) (s : Stamp) (r : Repository) (a : ApprovalRecord)
    (p : TaskProjectionRecord)
    → IsDecided i a p s r d
        (decided_status d)
        (resumed_status d)
        (decision_value d)
        (outcome i d s r a p (length (events_of a.task_id r.events) + 1))
unfolding decision_event decision_outbox
outcome-IsDecided i d s r a p =
    let n = length (events_of a.task_id r.events) + 1 in
    let e = decision_event i a d n s in
    record {
      approvals = λ j. lookup-insert i j (decided a d s.at) r.approvals;
      projections = λ u. lookup-insert a.task_id u _ r.projections;
      event = e;
      logs = λ u. events_of-append u r.events e;
      numbered = refl;
      named = refl;
      typed = refl;
      timed = (refl, refl);
      said = refl;
      message = decision_outbox i a d n s;
      published = refl;
      addressed = (refl, refl, refl);
      sent = refl;
      untouched = (refl, refl, refl);
      answer = refl;
    }

-- What an accepted decision changes in a well-formed repository. Approved, the approval is approved and the task
-- executes; denied, the approval and the task are denied. Either way the approval holds the decision and its time, the
-- task has no pending approval, its log gets one event with the task's next number, which says what was decided, the
-- outbox one record with that number, and both are returned; every other approval, task and log stays as it was.
pub decide_approval_effects :
    (i x y g : Str) (s : Stamp) (r : Repository) (a : ApprovalRecord)
    → IsValid r
    → Decidable i x y g s.at r a
    → (p : TaskProjectionRecord) × (lookup a.task_id r.projections ≡ some p)
      × IsDecided i a p s r ApprovalDecision.approve ApprovalStatus.approved TaskStatus.executing
          (codes "approve")
          (decide_approval i x y g ApprovalDecision.approve s r)
      × IsDecided i a p s r ApprovalDecision.deny ApprovalStatus.denied TaskStatus.denied
          (codes "deny")
          (decide_approval i x y g ApprovalDecision.deny s r)
decide_approval_effects i x y g s r a v able =
    let (p, at_p, p_actor, p_device) = v.owned i a able.0 in
    (
      p,
      at_p,
      subst
          (IsDecided i a p s r ApprovalDecision.approve ApprovalStatus.approved TaskStatus.executing
            (codes "approve"))
          (sym (decide_approval-outcome i x y g ApprovalDecision.approve s r a p v able at_p))
          (outcome-IsDecided i ApprovalDecision.approve s r a p),
      subst
          (IsDecided i a p s r ApprovalDecision.deny ApprovalStatus.denied TaskStatus.denied
            (codes "deny"))
          (sym (decide_approval-outcome i x y g ApprovalDecision.deny s r a p v able at_p))
          (outcome-IsDecided i ApprovalDecision.deny s r a p),
    )

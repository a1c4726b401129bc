-- ===== src/Tasks/Frame.antt =====
-- What each method of the repository (backend/src/jarvis/tasks/repository.py) leaves alone, and that
-- its registers only grow: an outcome, a cancellation and a decision that are stored stay stored.
use sriee.Base.{
  ◌≡◌, false, not, Option, some, arith, str_eq, nat_eq, ◌==◌, inl, inr, Option-cases, if_intro,
  option_intro, str_beq_iff, leb,
}
use sriee.Text.{Str}
use sriee.Dict.{lookup, contains, lookup-insert_new, lookup-insert}
use sriee.Tasks.Invariant.Methods.{owned_approval_lem}
use sriee.Tasks.Errors.{Result}
use sriee.Tasks.Model.{
  TaskEvent, TaskProjectionRecord, TaskCreationBundle, TaskCreationOutcome, TaskCancellationOutcome,
  TaskRecord, ApprovalRecord, ApprovalDecision, ApprovalDecisionOutcome, Scope, scope_eq,
}
use sriee.Tasks.Repository.{
  Repository, create_or_get, replace_projection, append_event_for_test, scope_of, events_of,
  next_sequence, owned_projection, new_outcome,
}
use sriee.Tasks.Control.{
  Stamp, request_cancellation, decide_approval, put_pending_approval_for_test, owned_approval,
  is_pending, is_terminal, cancellation_outcome, decided,
}

-- Nothing but the log, the outbox, the projections and the cancellations changes in a cancellation.
pub cancel-by_idempotency :
    (t x y : Str) (s : Stamp) (r : Repository)
    → (request_cancellation t x y s r).0.by_idempotency ≡ r.by_idempotency
unfolding request_cancellation
cancel-by_idempotency t x y s r = ground arith

pub decide-by_idempotency :
    (i x y g : Str) (d : ApprovalDecision) (s : Stamp) (r : Repository)
    → (decide_approval i x y g d s r).0.by_idempotency ≡ r.by_idempotency
unfolding decide_approval
decide-by_idempotency i x y g d s r = ground arith

pub replace_frame :
    (q : TaskProjectionRecord) (r : Repository)
    → ((replace_projection q r).0.by_idempotency ≡ r.by_idempotency)
      × ((replace_projection q r).0.cancellations ≡ r.cancellations)
      × ((replace_projection q r).0.approvals ≡ r.approvals)
unfolding replace_projection
replace_frame q r = ground arith

pub append_frame :
    (e : TaskEvent) (r : Repository)
    → ((append_event_for_test e r).0.by_idempotency ≡ r.by_idempotency)
      × ((append_event_for_test e r).0.cancellations ≡ r.cancellations)
      × ((append_event_for_test e r).0.approvals ≡ r.approvals)
unfolding append_event_for_test
append_frame e r = ground arith

pub create_frame :
    (b : TaskCreationBundle) (r : Repository)
    → ((create_or_get b r).0.cancellations ≡ r.cancellations)
      × ((create_or_get b r).0.approvals ≡ r.approvals)
unfolding create_or_get
create_frame b r = ground arith

pub cancel-approvals :
    (t x y : Str) (s : Stamp) (r : Repository)
    → (request_cancellation t x y s r).0.approvals ≡ r.approvals
unfolding request_cancellation
cancel-approvals t x y s r = ground arith

pub decide-cancellations :
    (i x y g : Str) (d : ApprovalDecision) (s : Stamp) (r : Repository)
    → (decide_approval i x y g d s r).0.cancellations ≡ r.cancellations
unfolding decide_approval
decide-cancellations i x y g d s r = ground arith

pub put_frame :
    (a : ApprovalRecord) (r : Repository)
    → ((put_pending_approval_for_test a r).0.by_idempotency ≡ r.by_idempotency)
      × ((put_pending_approval_for_test a r).0.cancellations ≡ r.cancellations)
unfolding put_pending_approval_for_test
put_frame a r = ground arith

pub create-remembered :
    (b : TaskCreationBundle) (s : Scope) {o : TaskCreationOutcome} (r : Repository)
    → lookup s r.by_idempotency ≡ some o
    → lookup s (create_or_get b r).0.by_idempotency ≡ some o
unfolding create_or_get
create-remembered b s r h = elim (Option-cases (lookup (scope_of b.task) r.by_idempotency)) [
  | inl free ↦
      rw (free, create_or_get)
        (lookup-insert_new (scope_of b.task) s (new_outcome b) r.by_idempotency (rw free) h)
  | inr (p, taken) ↦ rw (taken, create_or_get) (ground arith)
]

pub cancel-cancelled :
    (t x y : Str) (s : Stamp) (u : Str) {c : TaskCancellationOutcome} (r : Repository)
    → lookup u r.cancellations ≡ some c
    → lookup u (request_cancellation t x y s r).0.cancellations ≡ some c
unfolding request_cancellation
cancel-cancelled t x y s u {c} r h =
    option_intro P (owned_projection t x y r) (λ hidden. h)
      λ p seen.
        option_intro P (lookup t r.cancellations)
          (λ new.
            if_intro P (is_terminal p.status) (λ ended. h)
              λ open_task.
                option_intro P (next_sequence (events_of t r.events)) (λ empty_log. h)
                  λ n numbered.
                    lookup-insert_new t u (cancellation_outcome t n p s) r.cancellations (rw new) h)
          (λ o old. h)
  where
    P : Repository × Result (Option TaskCancellationOutcome) → Type 0
    P a = lookup u a.0.cancellations ≡ some c

pub decide-settled :
    (i x y g : Str) (d : ApprovalDecision) (s : Stamp) (j : Str) {a : ApprovalRecord}
    (r : Repository)
    → lookup j r.approvals ≡ some a
    → is_pending a.status ≡ false
    → lookup j (decide_approval i x y g d s r).0.approvals ≡ some a
unfolding decide_approval
decide-settled i x y g d s j {a} r h p =
    option_intro P (owned_approval i x y r) (λ hidden. h)
      λ b seen.
        if_intro P (not (is_pending b.status)) (λ consumed. h)
          λ pending.
            if_intro P (leb b.expires_at s.at) (λ late. h)
              λ timely.
                if_intro P (not (b.action_digest == g)) (λ other. h)
                  λ same.
                    option_intro P (lookup b.task_id r.projections) (λ missing. h)
                      λ q at.
                        option_intro P (next_sequence (events_of b.task_id r.events))
                          (λ empty_log. h)
                          λ n numbered. ground (
                            arith,
                            owned_approval_lem i x y r seen,
                            lookup-insert i j (decided b d s.at) r.approvals,
                            str_beq_iff i j,
                          )
  where
    P : Repository × Result (Option ApprovalDecisionOutcome) → Type 0
    P w = lookup j w.0.approvals ≡ some a

pub put-settled :
    (b : ApprovalRecord) (j : Str) {a : ApprovalRecord} (r : Repository)
    → (b.approval_id == j) ≡ false
    → lookup j r.approvals ≡ some a
    → lookup j (put_pending_approval_for_test b r).0.approvals ≡ some a
unfolding put_pending_approval_for_test
put-settled b j r f h = ground (arith, lookup-insert b.approval_id j b r.approvals)

pub create-tasks :
    (b : TaskCreationBundle) (t : Str) {k : TaskRecord} (r : Repository)
    → contains b.task.task_id r.tasks ≡ false
    → lookup t r.tasks ≡ some k
    → lookup t (create_or_get b r).0.tasks ≡ some k
unfolding create_or_get
create-tasks b t r f h = ground (arith, lookup-insert_new b.task.task_id t b.task r.tasks f h)

pub replace-tasks :
    (q : TaskProjectionRecord) (r : Repository) → (replace_projection q r).0.tasks ≡ r.tasks
unfolding replace_projection
replace-tasks q r = ground arith

pub append-tasks : (e : TaskEvent) (r : Repository) → (append_event_for_test e r).0.tasks ≡ r.tasks
unfolding append_event_for_test
append-tasks e r = ground arith

pub cancel-tasks :
    (t x y : Str) (s : Stamp) (r : Repository) → (request_cancellation t x y s r).0.tasks ≡ r.tasks
unfolding request_cancellation
cancel-tasks t x y s r = ground arith

pub decide-tasks :
    (i x y g : Str) (d : ApprovalDecision) (s : Stamp) (r : Repository)
    → (decide_approval i x y g d s r).0.tasks ≡ r.tasks
unfolding decide_approval
decide-tasks i x y g d s r = ground arith

pub put-tasks :
    (a : ApprovalRecord) (r : Repository) → (put_pending_approval_for_test a r).0.tasks ≡ r.tasks
unfolding put_pending_approval_for_test
put-tasks a r = ground arith

-- ===== src/Tasks/Control/Access.antt =====
-- Who may read and control a task (backend/src/jarvis/tasks/repository.py).
use sriee.Base.{
  ℕ, suc, length, ◌≡◌, false, Option, none, some, arith, str_eq, inl, inr, ◌⊎◌, Option-cases,
  Bool-cases, str_beq_iff, refl,
}
use sriee.Text.{Str}
use sriee.Dict.{lookup}
use sriee.Tasks.Errors.{Result, ok, err, TaskError}
use sriee.Tasks.Model.{
  TaskCancellationOutcome, TaskProjectionRecord, ApprovalRecord, ApprovalDecision,
}
use sriee.Tasks.Repository.{owned_projection, Repository, list_authorized_events, events_of}
use sriee.Tasks.Control.{
  Stamp, request_cancellation, decide_approval, owned_approval, is_terminal, ended_outcome,
  cancellation_outcome,
}
use sriee.Tasks.Invariant.{IsValid}
use sriee.Tasks.Invariant.Methods.{owned_projection_lem, owned_approval_lem, next_of_valid}

-- The principal does not own what is stored under the key, if anything is.
abbrev pub Foreign : Str → Str → Option TaskProjectionRecord → Type 0
Foreign x y none = Unit
Foreign x y (some p) = ¬ ((p.actor_id ≡ x) × (p.device_id ≡ y))

abbrev pub ForeignApproval : Str → Str → Option ApprovalRecord → Type 0
ForeignApproval x y none = Unit
ForeignApproval x y (some a) = ¬ ((a.actor_id ≡ x) × (a.device_id ≡ y))

-- A task that is not there and a task of another actor or device cannot be told apart: the events
-- are none, and a cancellation returns none and changes nothing.
Foreign-task_hidden :
    (t x y : Str) (s : Stamp) (after limit : ℕ) (r : Repository)
    → Foreign x y (lookup t r.projections)
    → (list_authorized_events t x y after limit r ≡ none)
      × (request_cancellation t x y s r ≡ (r, ok none))
unfolding list_authorized_events request_cancellation
Foreign-task_hidden t x y s after limit r h = elim (Option-cases (lookup t r.projections)) [
  | inl missing ↦ ground arith
  | inr (p, at) ↦ ground (arith, str_beq_iff p.actor_id x, str_beq_iff p.device_id y)
]

-- Nor can an approval that is not there and one of another actor or device: a decision returns none and
-- changes nothing.
ForeignApproval-hidden :
    (i x y g : Str) (d : ApprovalDecision) (s : Stamp) (r : Repository)
    → ForeignApproval x y (lookup i r.approvals)
    → decide_approval i x y g d s r ≡ (r, ok none)
unfolding decide_approval
ForeignApproval-hidden i x y g d s r h = elim (Option-cases (lookup i r.approvals)) [
  | inl missing ↦ ground arith
  | inr (a, at) ↦ ground (arith, str_beq_iff a.actor_id x, str_beq_iff a.device_id y)
]

-- In a well-formed repository a cancellation never raises, whoever asks for it.
request_cancellation_total :
    (t x y : Str) (s : Stamp) (r : Repository)
    → IsValid r
    → (o : Option TaskCancellationOutcome) × ((request_cancellation t x y s r).1 ≡ ok o)
unfolding request_cancellation
request_cancellation_total t x y s r v = elim (Option-cases (owned_projection t x y r)) [
  | inl hidden ↦ (none, ground arith)
  | inr (p, seen) ↦ elim (Option-cases (lookup t r.cancellations)) [
    | inr (c, old) ↦ (some (record c { created = false }), ground arith)
    | inl new ↦ elim (Bool-cases (is_terminal p.status)) [
      | inl ended ↦ (some (ended_outcome t p), ground arith)
      | inr going ↦ (
        some (cancellation_outcome t (suc (length (events_of t r.events))) p s),
        ground (arith, (next_of_valid r t v (owned_projection_lem t x y r seen).0).1),
      )
    ]
  ]
]

-- In a well-formed repository a decision raises nothing but its three documented refusals: its reads
-- of the projection and of the last event succeed.
decide_approval_raises :
    (i x y g : Str) (d : ApprovalDecision) (s : Stamp) (r : Repository) (e : TaskError)
    → IsValid r
    → (decide_approval i x y g d s r).1 ≡ err e
    → (e ≡ TaskError.approval_consumed)
      ⊎ ((e ≡ TaskError.approval_expired) ⊎ (e ≡ TaskError.approval_digest_mismatch))
unfolding decide_approval
decide_approval_raises i x y g d s r e v h = elim (Option-cases (owned_approval i x y r)) [
  | inl hidden ↦ ground arith
  | inr (a, seen) ↦
      let (p, at, actor, device) = v.owned i a (owned_approval_lem i x y r seen).0 in
      ground (arith, at, (next_of_valid r a.task_id v at).1)
]

-- A task that is not there and a task of another actor or device cannot be told apart, nor can such
-- approvals: the events are none, and a cancellation or a decision returns none and changes nothing.
pub Foreign-hidden :
    (t i x y g : Str) (d : ApprovalDecision) (s : Stamp) (after limit : ℕ) (r : Repository)
    → Foreign x y (lookup t r.projections)
    → ForeignApproval x y (lookup i r.approvals)
    → (list_authorized_events t x y after limit r ≡ none)
      × ((request_cancellation t x y s r ≡ (r, ok none))
          × (decide_approval i x y g d s r ≡ (r, ok none)))
Foreign-hidden t i x y g d s after limit r h k =
    let task = Foreign-task_hidden t x y s after limit r h in
    (task.0, (task.1, ForeignApproval-hidden i x y g d s r k))

-- The documented refusals of a decision.
abbrev pub IsDocumented {ℓ} : {A : Type ℓ} → Result A → Type 0
IsDocumented (ok _) = Unit
IsDocumented (err e) =
    (e ≡ TaskError.approval_consumed)
    ⊎ ((e ≡ TaskError.approval_expired) ⊎ (e ≡ TaskError.approval_digest_mismatch))

raised-IsDocumented {ℓ} :
    {A : Type ℓ} (m : Result A)
    → ((e : TaskError) → m ≡ err e → IsDocumented {A = A} (err e))
    → IsDocumented m
raised-IsDocumented (ok a) h = tt
raised-IsDocumented (err e) h = h e refl

-- In a well-formed repository a cancellation never raises, whoever asks for it, and a decision
-- raises nothing but its three documented refusals.
pub control_refusals :
    (t i x y g : Str) (d : ApprovalDecision) (s : Stamp) (r : Repository)
    → IsValid r
    → ((o : Option TaskCancellationOutcome) × ((request_cancellation t x y s r).1 ≡ ok o))
      × IsDocumented (decide_approval i x y g d s r).1
control_refusals t i x y g d s r v = (
  request_cancellation_total t x y s r v,
  raised-IsDocumented (decide_approval i x y g d s r).1
      (λ e h. decide_approval_raises i x y g d s r e v h),
)

-- ===== src/Tasks/Control/Decision.antt =====
-- What the decision of an approval and a cancellation do, and when they are accepted
-- (backend/src/jarvis/tasks/repository.py).
use sriee.Base.{
  ◌+◌, ℕ, suc, length, ◌≡◌, ◌<◌, ◌↔◌, refl, true, false, not, Option, none, some, [], ◌∷◌, ◌++◌,
  arith, str_eq, ◌==◌, inl, inr, ◌⊎◌, Option-cases, if_intro, option_intro, leb, str_beq_iff,
}
use sriee.Text.{Str}
use sriee.Dict.{lookup, insert, lookup-insert_self}
use sriee.Tasks.Errors.{Result, ok}
use sriee.Tasks.Model.{
  TaskCancellationOutcome, TaskProjectionRecord, TaskStatus, ApprovalStatus, ApprovalRecord,
  ApprovalDecision, ApprovalDecisionOutcome,
}
use sriee.Tasks.Repository.{Repository, events_of, next_sequence, owned_projection}
use sriee.Tasks.Control.{
  Stamp, request_cancellation, decide_approval, is_pending, decided, owned_approval, is_terminal,
  decision_event, decision_outbox, resumed_status, cancellation_outcome,
}
use sriee.Tasks.Invariant.{IsValid}
use sriee.Tasks.Invariant.Methods.{owned_approval_lem, next_of_valid, request_cancellation-IsValid}
use sriee.Tasks.Steps.{here, next, decide}
use sriee.Tasks.Frame.{cancel-approvals}
use sriee.Tasks.Control.Access.{IsDocumented, control_refusals}
use sriee.Tasks.Once.{request_cancellation_once}

-- The conditions of an accepted decision.
abbrev pub Decidable : Str → Str → Str → Str → ℕ → Repository → ApprovalRecord → Type 0
Decidable i x y g now r a =
    (lookup i r.approvals ≡ some a)
    × (a.actor_id ≡ x)
    × (a.device_id ≡ y)
    × (a.status ≡ ApprovalStatus.pending)
    × (now < a.expires_at)
    × (a.action_digest ≡ g)

accepted-Decidable :
    (i x y g : Str) (d : ApprovalDecision) (s : Stamp) (r : Repository)
    {o : ApprovalDecisionOutcome}
    → (decide_approval i x y g d s r).1 ≡ ok (some o)
    → (a : ApprovalRecord) × Decidable i x y g s.at r a
unfolding decide_approval
accepted-Decidable i x y g d s r h = elim (Option-cases (owned_approval i x y r)) [
  | inl hidden ↦ ground arith
  | inr (a, seen) ↦
      let (at, actor, device) = owned_approval_lem i x y r seen in
      (
        a,
        (
          at,
          actor,
          device,
          ground arith,
          ground arith,
          ground (arith, str_beq_iff a.action_digest g),
        ),
      )
]

Decidable-accepted :
    (i x y g : Str) (d : ApprovalDecision) (s : Stamp) (r : Repository) (a : ApprovalRecord)
    → IsValid r
    → Decidable i x y g s.at r a
    → (o : ApprovalDecisionOutcome) × ((decide_approval i x y g d s r).1 ≡ ok (some o))
unfolding decide_approval
Decidable-accepted i x y g d s r a v (at, actor, device, pending, timely, same) =
    let (p, at_p, p_actor, p_device) = v.owned i a at in
    let n = suc (length (events_of a.task_id r.events)) in
    (
      record {
        approval = decided a d s.at;
        event = decision_event i a d n s;
        outbox = decision_outbox i a d n s;
      },
      ground (
        arith,
        at_p,
        (next_of_valid r a.task_id v at_p).1,
        str_beq_iff a.actor_id x,
        str_beq_iff a.device_id y,
        str_beq_iff a.action_digest g,
      ),
    )

-- In a well-formed repository a decision is accepted exactly when the approval is there, belongs to
-- the actor and the device, is pending, has not expired, and was given with its own digest.
pub decide_approval_accepts :
    (i x y g : Str) (d : ApprovalDecision) (s : Stamp) (r : Repository)
    → IsValid r
    → ((o : ApprovalDecisionOutcome) × ((decide_approval i x y g d s r).1 ≡ ok (some o)))
      ↔ ((a : ApprovalRecord) × Decidable i x y g s.at r a)
decide_approval_accepts i x y g d s r v =
    ((λ h. accepted-Decidable i x y g d s r h.1), (λ h. Decidable-accepted i x y g d s r h.0 v h.1))

-- The repository and the answer of an accepted decision whose event takes the number `n`.
abbrev pub outcome :
    Str
    → ApprovalDecision
    → Stamp
    → Repository
    → ApprovalRecord
    → TaskProjectionRecord
    → ℕ
    → Repository × Result (Option ApprovalDecisionOutcome)
outcome i d s r a p n = (
  record r {
    approvals = insert i (decided a d s.at) r.approvals;
    projections =
        insert a.task_id
          (record p { status = resumed_status d; pending_approval = none; updated_at = s.at })
          r.projections;
    events = r.events ++ decision_event i a d n s ∷ [];
    outbox = r.outbox ++ decision_outbox i a d n s ∷ [];
  },
  ok (
      some (record {
        approval = decided a d s.at;
        event = decision_event i a d n s;
        outbox = decision_outbox i a d n s;
      })),
)

pub decide_approval-outcome :
    (i x y g : Str) (d : ApprovalDecision) (s : Stamp) (r : Repository) (a : ApprovalRecord)
    (p : TaskProjectionRecord)
    → IsValid r
    → Decidable i x y g s.at r a
    → lookup a.task_id r.projections ≡ some p
    → decide_approval i x y g d s r
      ≡ outcome i d s r a p (length (events_of a.task_id r.events) + 1)
unfolding decide_approval
decide_approval-outcome i x y g d s r a p v (at, actor, device, pending, timely, same) at_p =
    ground (
      arith,
      at_p,
      (next_of_valid r a.task_id v at_p).1,
      str_beq_iff a.actor_id x,
      str_beq_iff a.device_id y,
      str_beq_iff a.action_digest g,
    )

-- The call answers with a new outcome, or the repository is as it was.
abbrev pub CancelAtomic : Repository → Repository × Result (Option TaskCancellationOutcome) → Type 0
CancelAtomic r w =
    (w.0 ≡ r) ⊎ ((o : TaskCancellationOutcome) × (w.1 ≡ ok (some o)) × (o.created ≡ true))

abbrev pub DecideAtomic : Repository → Repository × Result (Option ApprovalDecisionOutcome) → Type 0
DecideAtomic r w = (w.0 ≡ r) ⊎ ((o : ApprovalDecisionOutcome) × (w.1 ≡ ok (some o)))

cancel_atomic :
    (t x y : Str) (s : Stamp) (r : Repository) → CancelAtomic r (request_cancellation t x y s r)
unfolding request_cancellation
cancel_atomic t x y s r =
    option_intro (CancelAtomic r) (owned_projection t x y r) (λ hidden. inl refl)
      λ p seen.
        option_intro (CancelAtomic r) (lookup t r.cancellations)
          (λ new.
            if_intro (CancelAtomic r) (is_terminal p.status) (λ ended. inl refl)
              λ going.
                option_intro (CancelAtomic r) (next_sequence (events_of t r.events))
                  (λ empty_log. inl refl)
                  λ n numbered. inr (cancellation_outcome t n p s, refl, refl))
          (λ o old. inl refl)

decide_atomic :
    (i x y g : Str) (d : ApprovalDecision) (s : Stamp) (r : Repository)
    → DecideAtomic r (decide_approval i x y g d s r)
unfolding decide_approval
decide_atomic i x y g d s r =
    option_intro (DecideAtomic r) (owned_approval i x y r) (λ hidden. inl refl)
      λ a seen.
        if_intro (DecideAtomic r) (not (is_pending a.status)) (λ consumed. inl refl)
          λ pending.
            if_intro (DecideAtomic r) (leb a.expires_at s.at) (λ late. inl refl)
              λ timely.
                if_intro (DecideAtomic r) (not (a.action_digest == g)) (λ other. inl refl)
                  λ same.
                    option_intro (DecideAtomic r) (lookup a.task_id r.projections)
                      (λ missing. inl refl)
                      λ p at.
                        option_intro (DecideAtomic r) (next_sequence (events_of a.task_id r.events))
                          (λ empty_log. inl refl) λ n numbered. inr (_, refl)

-- A call that does not answer with a new outcome leaves the repository as it was: every refusal,
-- every repeated and every late cancellation.
control_atomic :
    (t i x y g : Str) (d : ApprovalDecision) (s : Stamp) (r : Repository)
    → CancelAtomic r (request_cancellation t x y s r)
      × DecideAtomic r (decide_approval i x y g d s r)
control_atomic t i x y g d s r = (cancel_atomic t x y s r, decide_atomic i x y g d s r)

-- In a well-formed repository a cancellation never raises, whoever asks for it, and a decision
-- raises nothing but its three documented refusals; and a call that does not answer with a new
-- outcome leaves the repository as it was.
pub control_recovers :
    (t i x y g : Str) (d : ApprovalDecision) (s : Stamp) (r : Repository)
    → IsValid r
    → (((o : Option TaskCancellationOutcome) × ((request_cancellation t x y s r).1 ≡ ok o))
        × IsDocumented (decide_approval i x y g d s r).1)
      × (CancelAtomic r (request_cancellation t x y s r)
          × DecideAtomic r (decide_approval i x y g d s r))
control_recovers t i x y g d s r v =
    (control_refusals t i x y g d s r v, control_atomic t i x y g d s r)

-- A cancellation touches no approval.
cancelled-Decidable :
    (t i x y g : Str) (s : Stamp) (now : ℕ) (r : Repository) (a : ApprovalRecord)
    → Decidable i x y g now r a
    → Decidable i x y g now (request_cancellation t x y s r).0 a
cancelled-Decidable t i x y g s now r a (at, actor, device, pending, timely, same) =
    (rw (cancel-approvals t x y s r) at, actor, device, pending, timely, same)

-- A cancellation that is recorded does not withdraw the task's pending approval: when it is approved
-- afterwards, the task is executing again, and the owner's next cancellation changes nothing and
-- answers that cancellation has been requested.
pub approval_revives_cancelled :
    (i x y g : Str) (s s' s'' : Stamp) (r : Repository) (a : ApprovalRecord)
    {o : TaskCancellationOutcome}
    → IsValid r
    → (request_cancellation a.task_id x y s r).1 ≡ ok (some o)
    → o.cancellation_requested ≡ true
    → Decidable i x y g s'.at r a
    → let r' =
        (decide_approval i x y g ApprovalDecision.approve s'
          (request_cancellation a.task_id x y s r).0).0 in
      ((p : TaskProjectionRecord) × (lookup a.task_id r'.projections ≡ some p)
        × (p.status ≡ TaskStatus.executing))
      × (request_cancellation a.task_id x y s'' r' ≡ (r', ok (some (record o { created = false }))))
approval_revives_cancelled i x y g s s' s'' r a v h e able =
    let r1 = (request_cancellation a.task_id x y s r).0 in
    let v1 = request_cancellation-IsValid a.task_id x y s r v in
    let able1 = cancelled-Decidable a.task_id i x y g s s'.at r a able in
    let (p, at, actor, device) = v1.owned i a able1.0 in
    (
      (
        record p { status = TaskStatus.executing; pending_approval = none; updated_at = s'.at },
        rw (decide_approval-outcome i x y g ApprovalDecision.approve s' r1 a p v1 able1 at)
            (lookup-insert_self a.task_id _ r1.projections),
        refl,
      ),
      request_cancellation_once a.task_id x y s s'' r v h e
          (next here (decide i x y g ApprovalDecision.approve s')),
    )

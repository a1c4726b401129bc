-- ===== src/Tasks/Invariant/Methods.antt =====
-- The other methods keep the repository well formed, whatever they return.
use sriee.Base.{
  suc, ◌+◌, ◌≡◌, refl, true, false, none, some, [], ◌∷◌, ◌++◌, not, arith, ◌==◌, sym, length,
  str_eq, nat_eq, if_intro, option_intro, any, leb, ◌&&◌, str_beq_iff, Option-cases, inl, inr,
}
use sriee.Text.{Str}
use sriee.Dict.{lookup, insert, contains, lookup-insert_cases}
use sriee.Tasks.Errors.{Result}
use sriee.Tasks.Model.{
  TaskEvent, TaskStatus, TaskProjectionRecord, TaskCancellationOutcome, ApprovalRecord,
  ApprovalDecision, scope_eq,
}
use sriee.Tasks.Repository.{
  Repository, events_of, max_sequence, next_sequence, replace_projection, append_event_for_test,
  owned_projection, same_identity,
}
use sriee.Tasks.Control.{
  Stamp, cancellation_event, cancellation_outbox, cancellation_outcome, cancel_at, cancel_owned,
  request_cancellation, decision_event, decision_outbox, decide_at, decide_pending, decide_approval,
  put_pending_approval_for_test, decided, pending_projection, is_pending, owned_approval,
  resumed_status, is_terminal,
}
use sriee.Tasks.Sequence.{next_sequence_lem, max_sequence-eq-length}
use sriee.Tasks.Invariant.{IsValid, IsOwned}
use sriee.Tasks.Invariant.Update.{push-IsValid, update-IsValid}

-- A task with a projection has events, so its next number is found.
pub next_of_valid :
    (r : Repository) (t : Str) {p : TaskProjectionRecord}
    → IsValid r
    → lookup t r.projections ≡ some p
    → (contains t r.tasks ≡ true)
      × (next_sequence (events_of t r.events) ≡ some (suc (length (events_of t r.events))))
next_of_valid r t v at =
    let exists : contains t r.tasks ≡ true = ground (arith, v.projected t) in
    (exists, next_sequence_lem (events_of t r.events) (v.numbered t) (v.begun t exists))

abbrev Keeps : {A : Type 0} → Repository × Result A → Type 0
Keeps x = IsValid x.0

pub replace_projection-IsValid :
    (q : TaskProjectionRecord) (r : Repository) → IsValid r → IsValid (replace_projection q r).0
unfolding replace_projection
replace_projection-IsValid q r v =
    if_intro Keeps (not (contains q.task_id r.tasks)) (λ absent. v)
      λ present.
        option_intro Keeps (lookup q.task_id r.projections) (λ missing. v)
          λ p at.
            if_intro Keeps (same_identity p q)
              (λ same.
                update-IsValid r q.task_id q v at (sym (v.represented q.task_id p at).2)
                  (ground (arith, str_beq_iff p.actor_id q.actor_id))
                  (ground
                    (arith, str_beq_iff p.actor_id q.actor_id, str_beq_iff p.device_id q.device_id))
                  r.approvals r.cancellations r.outbox v.owned v.cancelled)
              (λ other. v)

pub append_event_for_test-IsValid :
    (e : TaskEvent) (r : Repository) → IsValid r → IsValid (append_event_for_test e r).0
unfolding append_event_for_test
append_event_for_test-IsValid e r v =
    if_intro Keeps (not (contains e.task_id r.tasks)) (λ absent. v)
      λ present.
        if_intro Keeps (not (e.sequence == max_sequence (events_of e.task_id r.events) + 1))
          (λ gap. v)
          λ next.
            if_intro Keeps (any (λ stored. stored.event_id == e.event_id) r.events) (λ taken. v)
              λ new. push-IsValid r e v (ground arith) (
                ground (
                  arith,
                  max_sequence-eq-length (events_of e.task_id r.events) (v.numbered e.task_id),
                ))

module _ (t : Str) (p : TaskProjectionRecord) (s : Stamp) (r : Repository) (v : IsValid r)
    (at : lookup t r.projections ≡ some p) where
  cancel_at-cancelled :
      (u : Str) (c : TaskCancellationOutcome)
      → lookup u (cancel_at t (suc (length (events_of t r.events))) p s r).cancellations ≡ some c
      → (c.created ≡ true) × (c.cancellation_requested ≡ true)
  unfolding cancel_at
  cancel_at-cancelled u c h =
      elim (lookup-insert_cases t u
        (cancellation_outcome t (suc (length (events_of t r.events))) p s) r.cancellations h) [
          | inl (same, e) ↦ rw (← e) (refl, refl)
          | inr (other, e) ↦ v.cancelled u c e
        ]

  pub cancel_at-IsValid : IsValid (cancel_at t (suc (length (events_of t r.events))) p s r)
  unfolding cancel_at
  cancel_at-IsValid =
      let n = suc (length (events_of t r.events)) in
      update-IsValid (record r { events = r.events ++ cancellation_event t p n s ∷ [] }) t
        (record p { status = TaskStatus.cancellation_requested; updated_at = s.at })
        (push-IsValid r (cancellation_event t p n s) v (next_of_valid r t v at).0 refl) at refl refl
        refl r.approvals (insert t (cancellation_outcome t n p s) r.cancellations)
        (r.outbox ++ cancellation_outbox t n s ∷ []) v.owned cancel_at-cancelled

  pub cancel_owned-IsValid : IsValid (cancel_owned t p s r).0
  unfolding cancel_owned
  cancel_owned-IsValid = elim (Option-cases (lookup t r.cancellations)) [
    | inr (c, before) ↦ rw (before, cancel_owned) v
    | inl new ↦
        rw (new, cancel_owned)
          (if_intro Keeps (is_terminal p.status) (λ ended. v)
            λ open_task. rw ((next_of_valid r t v at).1, cancel_owned) cancel_at-IsValid)
  ]

-- The projection that a principal may see is the one that is stored.
pub owned_projection_lem :
    (t actor_id device_id : Str) (r : Repository) {p : TaskProjectionRecord}
    → owned_projection t actor_id device_id r ≡ some p
    → (lookup t r.projections ≡ some p) × (p.actor_id ≡ actor_id) × (p.device_id ≡ device_id)
owned_projection_lem t actor_id device_id r {p} h = elim (Option-cases (lookup t r.projections)) [
  | inl missing ↦ ground arith
  | inr (q, at) ↦ ground (arith, str_beq_iff q.actor_id actor_id, str_beq_iff q.device_id device_id)
]

pub request_cancellation-IsValid :
    (t actor_id device_id : Str) (s : Stamp) (r : Repository)
    → IsValid r
    → IsValid (request_cancellation t actor_id device_id s r).0
unfolding request_cancellation
request_cancellation-IsValid t actor_id device_id s r v =
    elim (Option-cases (owned_projection t actor_id device_id r)) [
      | inl hidden ↦ rw (hidden, request_cancellation) v
      | inr (p, seen) ↦
          rw (seen, request_cancellation)
            (cancel_owned-IsValid t p s r v (owned_projection_lem t actor_id device_id r seen).0)
    ]

module _ (i : Str) (a : ApprovalRecord) (d : ApprovalDecision) (s : Stamp) (r : Repository)
    (v : IsValid r) (at : lookup i r.approvals ≡ some a) where
  decided-IsOwned :
      (j : Str) (b : ApprovalRecord)
      → lookup j (insert i (decided a d s.at) r.approvals) ≡ some b
      → IsOwned b r.projections
  decided-IsOwned j b h = elim (lookup-insert_cases i j (decided a d s.at) r.approvals h) [
    | inl (same, e) ↦ rw (← e) (v.owned i a at)
    | inr (other, e) ↦ v.owned j b e
  ]

  decide_at-IsValid :
      (p : TaskProjectionRecord)
      → lookup a.task_id r.projections ≡ some p
      → IsValid (decide_at i a p d (suc (length (events_of a.task_id r.events))) s r)
  unfolding decide_at
  decide_at-IsValid p at_p =
      let n = suc (length (events_of a.task_id r.events)) in
      update-IsValid (record r { events = r.events ++ decision_event i a d n s ∷ [] }) a.task_id
        (record p { status = resumed_status d; pending_approval = none; updated_at = s.at })
        (push-IsValid r (decision_event i a d n s) v (next_of_valid r a.task_id v at_p).0 refl) at_p
        refl refl refl (insert i (decided a d s.at) r.approvals) r.cancellations
        (r.outbox ++ decision_outbox i a d n s ∷ []) decided-IsOwned v.cancelled

  pub decide_pending-IsValid : IsValid (decide_pending i a d s r).0
  unfolding decide_pending
  decide_pending-IsValid =
      let (p, at_p, actor, device) = v.owned i a at in
      rw (at_p, decide_pending)
        (rw ((next_of_valid r a.task_id v at_p).1, decide_pending) (decide_at-IsValid p at_p))

pub owned_approval_lem :
    (i actor_id device_id : Str) (r : Repository) {a : ApprovalRecord}
    → owned_approval i actor_id device_id r ≡ some a
    → (lookup i r.approvals ≡ some a) × (a.actor_id ≡ actor_id) × (a.device_id ≡ device_id)
owned_approval_lem i actor_id device_id r {a} h = elim (Option-cases (lookup i r.approvals)) [
  | inl missing ↦ ground arith
  | inr (b, at) ↦ ground (arith, str_beq_iff b.actor_id actor_id, str_beq_iff b.device_id device_id)
]

pub decide_approval-IsValid :
    (i actor_id device_id digest : Str) (d : ApprovalDecision) (s : Stamp) (r : Repository)
    → IsValid r
    → IsValid (decide_approval i actor_id device_id digest d s r).0
unfolding decide_approval
decide_approval-IsValid i actor_id device_id digest d s r v =
    elim (Option-cases (owned_approval i actor_id device_id r)) [
      | inl hidden ↦ rw (hidden, decide_approval) v
      | inr (a, seen) ↦
          rw (seen, decide_approval)
            (if_intro Keeps (not (is_pending a.status)) (λ consumed. v)
              λ pending.
                if_intro Keeps (leb a.expires_at s.at) (λ late. v)
                  λ timely.
                    if_intro Keeps (not (a.action_digest == digest)) (λ other. v)
                      λ same.
                        decide_pending-IsValid i a d s r v
                          (owned_approval_lem i actor_id device_id r seen).0)
    ]

put-IsOwned :
    (a : ApprovalRecord) (p : TaskProjectionRecord) (r : Repository)
    → IsValid r
    → lookup a.task_id r.projections ≡ some p
    → not (p.actor_id == a.actor_id && p.device_id == a.device_id) ≡ false
    → (j : Str) (b : ApprovalRecord) → lookup j (insert a.approval_id a r.approvals) ≡ some b
    → IsOwned b r.projections
put-IsOwned a p r v at own j b h = elim (lookup-insert_cases a.approval_id j a r.approvals h) [
  | inl (same, e) ↦ rw (← e) (
    p,
    at,
    ground (arith, str_beq_iff p.actor_id a.actor_id),
    ground (arith, str_beq_iff p.actor_id a.actor_id, str_beq_iff p.device_id a.device_id),
  )
  | inr (other, e) ↦ v.owned j b e
]

pub put_pending_approval_for_test-IsValid :
    (a : ApprovalRecord) (r : Repository)
    → IsValid r
    → IsValid (put_pending_approval_for_test a r).0
unfolding put_pending_approval_for_test
put_pending_approval_for_test-IsValid a r v =
    option_intro Keeps (lookup a.task_id r.projections) (λ missing. v)
      λ p at.
        if_intro Keeps (not (is_pending a.status)) (λ settled. v)
          λ pending.
            if_intro Keeps (not (p.actor_id == a.actor_id && p.device_id == a.device_id))
              (λ foreign. v)
              λ own.
                update-IsValid r a.task_id
                  (record p {
                    status = TaskStatus.awaiting_approval;
                    pending_approval = some (pending_projection a);
                  })
                  v at refl refl refl (insert a.approval_id a r.approvals) r.cancellations r.outbox
                  (put-IsOwned a p r v at own) v.cancelled

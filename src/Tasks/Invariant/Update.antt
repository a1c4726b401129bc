-- ===== src/Tasks/Invariant/Update.antt =====
-- Writes to the projection of a task keep the repository well formed.
use sriee.Base.{
  suc, ◌<◌, ◌≡◌, true, false, some, List, [], ◌∷◌, ◌++◌, arith, sym, ◌∙◌, length, str_eq, str_beq,
  str_beq_iff, Bool-cases, inl, inr,
}
use sriee.Text.{Str}
use sriee.Dict.{
  Dict, lookup, insert, contains, lookup-insert_self, lookup-insert_ne, lookup-insert_cases,
  contains-insert,
}
use sriee.Tasks.Model.{
  TaskEvent, OutboxRecord, TaskProjectionRecord, TaskCancellationOutcome, ApprovalRecord, scope_eq,
}
use sriee.Tasks.Repository.{Repository, events_of}
use sriee.Tasks.Sequence.{Sequential-events_of, events_of-append-le, events_of-append}
use sriee.Tasks.Invariant.{IsValid, IsOwned, Represents}

-- An event takes the next number of a task that exists.
module _ (r : Repository) (e : TaskEvent) (v : IsValid r)
    (exists : contains e.task_id r.tasks ≡ true)
    (next : e.sequence ≡ suc (length (events_of e.task_id r.events))) where
  push_known : (t : Str) → contains t r.tasks ≡ false → events_of t (r.events ++ e ∷ []) ≡ []
  push_known t h = ground (arith, v.known t, events_of-append t r.events e, str_beq_iff e.task_id t)

  push_begun : (t : Str) → contains t r.tasks ≡ true → 0 < length (events_of t (r.events ++ e ∷ []))
  push_begun t h = omega (arith, v.begun t h, events_of-append-le t r.events e)

  pub push-IsValid : IsValid (record r { events = r.events ++ e ∷ [] })
  push-IsValid = record {
    numbered = λ t. Sequential-events_of t r.events e (v.numbered t) next;
    known = push_known;
    begun = push_begun;
    projected = v.projected;
    represented = v.represented;
    owned = v.owned;
    remembered = v.remembered;
    cancelled = v.cancelled;
  }

-- A projection is replaced by one with the same identity.
module _ (r : Repository) (t : Str) {p : TaskProjectionRecord} (q : TaskProjectionRecord)
    (v : IsValid r) (at : lookup t r.projections ≡ some p) (same_task : q.task_id ≡ p.task_id)
    (same_actor : q.actor_id ≡ p.actor_id) (same_device : q.device_id ≡ p.device_id) where
  pub kept_projected : (u : Str) → contains u r.tasks ≡ contains u (insert t q r.projections)
  kept_projected u =
      ground (arith, v.projected u, contains-insert t u q r.projections, str_beq_iff t u)

  pub kept_represented :
      (u : Str) (x : TaskProjectionRecord)
      → lookup u (insert t q r.projections) ≡ some x
      → Represents u x r.tasks
  kept_represented u x h = elim (lookup-insert_cases t u q r.projections h) [
    | inl (same, e) ↦
        let (k, at_k, id, actor, device) = v.represented t p at in (k, rw (← same) at_k, cc, cc, cc)
    | inr (other, e) ↦ v.represented u x e
  ]

  pub kept_owned :
      (a : ApprovalRecord) → IsOwned a r.projections → IsOwned a (insert t q r.projections)
  kept_owned a (x, at_x, actor, device) = elim (Bool-cases (str_beq t a.task_id)) [
    | inl same ↦
        let e : t ≡ a.task_id = (str_beq_iff t a.task_id).0 same in
        let pair : some p ≡ some x = sym at ∙ (rw (← e) at at_x) in
        (q, rw (← e) (lookup-insert_self t q r.projections), cc, cc)
    | inr other ↦ (x, lookup-insert_ne t a.task_id q r.projections other ∙ at_x, actor, device)
  ]

  -- The approvals and the cancellations that stand beside the new projection.
  module _ (approvals : Dict Str ApprovalRecord) (cancellations : Dict Str TaskCancellationOutcome)
      (outbox : List OutboxRecord)
      (approvals_owned : (i : Str) (a : ApprovalRecord)
        → lookup i approvals ≡ some a
        → IsOwned a r.projections)
      (all_cancelled : (u : Str) (c : TaskCancellationOutcome)
        → lookup u cancellations ≡ some c
        → (c.created ≡ true) × (c.cancellation_requested ≡ true)) where
    pub update-IsValid : IsValid (record r {
      projections = insert t q r.projections;
      approvals = approvals;
      cancellations = cancellations;
      outbox = outbox;
    })
    update-IsValid = record {
      numbered = v.numbered;
      known = v.known;
      begun = v.begun;
      projected = kept_projected;
      represented = kept_represented;
      owned = λ i a h. kept_owned a (approvals_owned i a h);
      remembered = v.remembered;
      cancelled = all_cancelled;
    }

-- ===== src/Tasks/Invariant/Create.antt =====
-- `create_or_get` keeps the repository well formed.
use sriee.Base.{
  ◌<◌, ◌≡◌, refl, true, false, some, [], ◌∷◌, arith, sym, ◌∙◌, length-append, length, str_eq,
  str_beq, str_beq_iff, Bool-cases, Option-cases, inl, inr,
}
use sriee.Text.{Str}
use sriee.Dict.{
  lookup, contains, lookup-insert, lookup-insert_self, lookup-insert_new, lookup-insert_cases,
  contains-insert,
}
use sriee.Tasks.Model.{
  TaskProjectionRecord, TaskCreationBundle, TaskCreationOutcome, ApprovalRecord, Scope, scope_eq,
}
use sriee.Tasks.Repository.{
  Repository, events_of, add_bundle, create_or_get, scope_of, initial_projection, new_outcome,
}
use sriee.Tasks.Sequence.{Sequential, Sequential-events_of, events_of-append-le, events_of-append}
use sriee.Tasks.Invariant.{IsValid, IsFresh, IsOwned, Represents, IsRemembered}

module _ (b : TaskCreationBundle) (r : Repository) (f : IsFresh b r) (v : IsValid r) where
  add_bundle-numbered : (t : Str) → Sequential 0 (events_of t (add_bundle b r).events)
  add_bundle-numbered t =
      Sequential-events_of t r.events b.event (v.numbered t)
        (rw (f.same_task, v.known b.task.task_id f.unused) (f.first))

  add_bundle-known :
      (t : Str)
      → contains t (add_bundle b r).tasks ≡ false
      → events_of t (add_bundle b r).events ≡ []
  add_bundle-known t h =
      grind (arith, v.known t, f.same_task, lookup-insert, events_of-append, str_beq_iff)

  add_bundle-begun :
      (t : Str)
      → contains t (add_bundle b r).tasks ≡ true
      → 0 < length (events_of t (add_bundle b r).events)
  add_bundle-begun t h = elim (Bool-cases (str_beq b.task.task_id t)) [
    | inl same ↦ ground (
      arith,
      f.same_task,
      events_of-append t r.events b.event,
      length-append (events_of t r.events) (b.event ∷ []),
    )
    | inr other ↦ ground (
      arith,
      v.begun t,
      events_of-append-le t r.events b.event,
      contains-insert b.task.task_id t b.task r.tasks,
    )
  ]

  add_bundle-projected :
      (t : Str) → contains t (add_bundle b r).tasks ≡ contains t (add_bundle b r).projections
  add_bundle-projected t = ground (
    arith,
    v.projected t,
    lookup-insert b.task.task_id t b.task r.tasks,
    lookup-insert b.task.task_id t (initial_projection b.task) r.projections,
  )

  add_bundle-represented :
      (t : Str) (p : TaskProjectionRecord)
      → lookup t (add_bundle b r).projections ≡ some p
      → Represents t p (add_bundle b r).tasks
  add_bundle-represented t p h =
      elim (lookup-insert_cases b.task.task_id t (initial_projection b.task) r.projections h) [
        | inl (same, e) ↦ (
          b.task,
          rw (← same) (lookup-insert_self b.task.task_id b.task r.tasks),
          rw (← e) same,
          cc,
          cc,
        )
        | inr (other, e) ↦
            let (k, at_k, id, actor, device) = v.represented t p e in
            (k, lookup-insert_new b.task.task_id t b.task r.tasks f.unused at_k, id, actor, device)
      ]

  add_bundle-owned :
      (i : Str) (a : ApprovalRecord)
      → lookup i r.approvals ≡ some a
      → IsOwned a (add_bundle b r).projections
  add_bundle-owned i a h =
      let (p, at_p, actor, device) = v.owned i a h in
      (
        p,
        lookup-insert_new b.task.task_id a.task_id (initial_projection b.task) r.projections
            (sym (v.projected b.task.task_id) ∙ f.unused) at_p,
        actor,
        device,
      )

  add_bundle-IsRemembered :
      (s : Scope) (o : TaskCreationOutcome)
      → lookup s (add_bundle b r).by_idempotency ≡ some o
      → IsRemembered s o (add_bundle b r).tasks
  add_bundle-IsRemembered s o h =
      elim (lookup-insert_cases (scope_of b.task) s (new_outcome b) r.by_idempotency h) [
        | inl (same, e) ↦ rw (← e) (refl, same, lookup-insert_self b.task.task_id b.task r.tasks)
        | inr (other, e) ↦
            let (c, sc, at_t) = v.remembered s o e in
            (c, sc, lookup-insert_new b.task.task_id o.task.task_id b.task r.tasks f.unused at_t)
      ]

  pub add_bundle-IsValid : IsValid (add_bundle b r)
  add_bundle-IsValid = record {
    numbered = add_bundle-numbered;
    known = add_bundle-known;
    begun = add_bundle-begun;
    projected = add_bundle-projected;
    represented = add_bundle-represented;
    owned = add_bundle-owned;
    remembered = add_bundle-IsRemembered;
    cancelled = v.cancelled;
  }

-- On every branch.
pub create_or_get-IsValid :
    (b : TaskCreationBundle) (r : Repository)
    → IsFresh b r
    → IsValid r
    → IsValid (create_or_get b r).0
unfolding create_or_get
create_or_get-IsValid b r f v = elim (Option-cases (lookup (scope_of b.task) r.by_idempotency)) [
  | inl free ↦ rw (free, create_or_get) (add_bundle-IsValid b r f v)
  | inr (o, taken) ↦
      rw (taken, create_or_get)
        (elim (Bool-cases (str_beq o.task.request_hash b.task.request_hash)) [
          | inl same ↦ rw same v
          | inr other ↦ rw other v
        ])
]

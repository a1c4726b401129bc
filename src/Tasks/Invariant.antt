-- ===== src/Tasks/Invariant.antt =====
-- The well-formedness of `InMemoryTaskRepository` (backend/src/jarvis/tasks/repository.py) between
-- two calls, and that each method keeps it.
pub mod Create
pub mod Update
pub mod Methods
use sriee.Base.{
  ℕ, suc, ◌+◌, ◌≤◌, ◌<◌, ◌≡◌, refl, Bool, true, false, Option, none, some, List, [], ◌∷◌, ◌++◌,
  arith, ◌==◌, sym, ◌∙◌, length-append, if◌then◌else◌, length, str_eq, str_beq, str_beq_iff,
  Bool-cases, Option-cases, inl, inr,
}
use sriee.Text.{Str}
use sriee.Dict.{
  Dict, lookup, insert, contains, lookup-insert, lookup-insert_self, lookup-insert_new,
  lookup-insert_ne, lookup-insert_cases, contains-insert,
}
use sriee.Tasks.Errors.{Result, ok, err}
use sriee.Tasks.Model.{
  TaskEvent, TaskRecord, TaskProjectionRecord, TaskCreationBundle, TaskCreationOutcome,
  TaskCancellationOutcome, ApprovalRecord, Scope, scope_eq, scope_beq_iff,
}
use sriee.Tasks.Repository.{
  Repository, events_of, max_sequence, next_sequence, add_bundle, create_or_get, scope_of,
  initial_projection, new_outcome, replace_projection, append_event_for_test,
}
use sriee.Tasks.Sequence.{
  Sequential, Sequential-events_of, events_of-append-le, events_of-append, next_sequence_lem,
}

-- A projection stands for the task with its key, and has that task's owner.
abbrev pub Represents : Str → TaskProjectionRecord → Dict Str TaskRecord → Type 0
Represents t p tasks =
    (k : TaskRecord) × (lookup t tasks ≡ some k)
    × (p.task_id ≡ t)
    × (p.actor_id ≡ k.actor_id)
    × (p.device_id ≡ k.device_id)

-- An approval belongs to the owner of its task.
abbrev pub IsOwned : ApprovalRecord → Dict Str TaskProjectionRecord → Type 0
IsOwned a projections =
    (p : TaskProjectionRecord) × (lookup a.task_id projections ≡ some p)
    × (p.actor_id ≡ a.actor_id)
    × (p.device_id ≡ a.device_id)

abbrev pub IsRemembered : Scope → TaskCreationOutcome → Dict Str TaskRecord → Type 0
IsRemembered s o tasks =
    (o.created ≡ true) × (scope_of o.task ≡ s) × (lookup o.task.task_id tasks ≡ some o.task)

pub record IsValid (r : Repository) : Type 0 where
  pub numbered : (t : Str) → Sequential 0 (events_of t r.events)
  pub known : (t : Str) → contains t r.tasks ≡ false → events_of t r.events ≡ []
  pub begun : (t : Str) → contains t r.tasks ≡ true → 0 < length (events_of t r.events)
  pub projected : (t : Str) → contains t r.tasks ≡ contains t r.projections
  pub represented :
      (t : Str) (p : TaskProjectionRecord)
      → lookup t r.projections ≡ some p
      → Represents t p r.tasks
  pub owned :
      (i : Str) (a : ApprovalRecord) → lookup i r.approvals ≡ some a → IsOwned a r.projections
  pub remembered :
      (s : Scope) (o : TaskCreationOutcome)
      → lookup s r.by_idempotency ≡ some o
      → IsRemembered s o r.tasks
  pub cancelled :
      (t : Str) (c : TaskCancellationOutcome)
      → lookup t r.cancellations ≡ some c
      → (c.created ≡ true) × (c.cancellation_requested ≡ true)

-- The bundle that `TaskCreationService.create` builds: the first event of a task whose identifier
-- is new.
pub record IsFresh (b : TaskCreationBundle) (r : Repository) : Type 0 where
  pub first : b.event.sequence ≡ 1
  pub same_task : b.event.task_id ≡ b.task.task_id
  pub unused : contains b.task.task_id r.tasks ≡ false

-- ===== src/Tasks/Repository.antt =====
-- `InMemoryTaskRepository` of backend/src/jarvis/tasks/repository.py. Every method holds the lock
-- from its first read to its last write, so it is one function from the state to the next state
-- and its result; `uuid4().hex` is an argument. `hmac.compare_digest` is equality of texts.
use sriee.Base.{
  ℕ, suc, ◌+◌, Bool, true, false, not, ◌&&◌, Option, none, some, List, [], ◌∷◌, ◌++◌, leb, ltb,
  ◌==◌, if◌then◌else◌, length, take, any, max, str_eq, nat_eq,
}
use sriee.Text.{Str}
use sriee.Dict.{Dict, lookup, insert, contains}
use sriee.Tasks.Errors.{Result, ok, err, TaskError}
use sriee.Tasks.Model.{
  TaskRecord, TaskEvent, OutboxRecord, TaskCreationBundle, TaskCreationOutcome,
  TaskProjectionRecord, TaskEventPageRecord, TaskCancellationOutcome, ApprovalRecord, Scope,
  scope_eq,
}

pub record Repository : Type 0 where
  pub by_idempotency : Dict Scope TaskCreationOutcome
  pub tasks : Dict Str TaskRecord
  pub projections : Dict Str TaskProjectionRecord
  pub events : List TaskEvent
  pub outbox : List OutboxRecord
  pub cancellations : Dict Str TaskCancellationOutcome
  pub approvals : Dict Str ApprovalRecord

abbrev pub empty : Repository
empty = record {
  by_idempotency = [];
  tasks = [];
  projections = [];
  events = [];
  outbox = [];
  cancellations = [];
  approvals = [];
}

abbrev pub scope_of : TaskRecord → Scope
scope_of t = (t.actor_id, t.device_id, t.idempotency_key)

abbrev pub initial_projection : TaskRecord → TaskProjectionRecord
initial_projection t = record {
  task_id = t.task_id;
  actor_id = t.actor_id;
  device_id = t.device_id;
  status = t.status;
  plan = none;
  pending_approval = none;
  result = none;
  created_at = t.created_at;
  updated_at = t.created_at;
}

abbrev pub new_outcome : TaskCreationBundle → TaskCreationOutcome
new_outcome b = record { task = b.task; event = b.event; outbox = b.outbox; created = true }

-- The writes of `create_or_get` for a scope that is not taken.
abbrev pub add_bundle : TaskCreationBundle → Repository → Repository
add_bundle b r = record r {
  tasks = insert b.task.task_id b.task r.tasks;
  projections = insert b.task.task_id (initial_projection b.task) r.projections;
  events = r.events ++ b.event ∷ [];
  outbox = r.outbox ++ b.outbox ∷ [];
  by_idempotency = insert (scope_of b.task) (new_outcome b) r.by_idempotency;
}

unfoldable pub create_or_get :
    TaskCreationBundle → Repository → Repository × Result TaskCreationOutcome
create_or_get b r = elim (lookup (scope_of b.task) r.by_idempotency) [
  | none ↦ (add_bundle b r, ok (new_outcome b))
  | some existing ↦
      if existing.task.request_hash == b.task.request_hash
      then (r, ok (record existing { created = false }))
      else (r, err TaskError.idempotency_conflict)
]

unfoldable pub get_projection : Str → Repository → Option TaskProjectionRecord
get_projection task_id r = lookup task_id r.projections

-- The test that lets `replace_projection` through.
abbrev pub same_identity : TaskProjectionRecord → TaskProjectionRecord → Bool
same_identity p q =
    p.actor_id == q.actor_id && p.device_id == q.device_id && p.created_at == q.created_at

unfoldable pub replace_projection :
    TaskProjectionRecord → Repository → Repository × Result (Unit {0})
replace_projection p r =
    if not (contains p.task_id r.tasks)
    then (r, err TaskError.task_does_not_exist)
    else elim (lookup p.task_id r.projections) [
      | none ↦ (r, err TaskError.task_does_not_exist)
      | some current ↦
          if same_identity current p
          then (record r { projections = insert p.task_id p r.projections }, ok tt)
          else (r, err TaskError.projection_identity_is_immutable)
    ]

-- The check of ownership that precedes every read and write on behalf of a principal.
abbrev pub owned : Str → Str → TaskProjectionRecord → Bool
owned actor_id device_id p = p.actor_id == actor_id && p.device_id == device_id

abbrev pub owned_projection : Str → Str → Str → Repository → Option TaskProjectionRecord
owned_projection task_id actor_id device_id r = elim (lookup task_id r.projections) [
  | none ↦ none
  | some p ↦ if owned actor_id device_id p then some p else none
]

-- `[event for event in self._events if event.task_id == task_id]`
unfoldable pub events_of : Str → List TaskEvent → List TaskEvent
events_of task_id [] = []
events_of task_id (e ∷ es) =
    let rest = events_of task_id es in if e.task_id == task_id then e ∷ rest else rest

-- The events of a page: also `event.sequence > after_sequence`.
unfoldable pub events_after : Str → ℕ → List TaskEvent → List TaskEvent
events_after task_id after [] = []
events_after task_id after (e ∷ es) =
    let rest = events_after task_id after es in
    if e.task_id == task_id && ltb after e.sequence then e ∷ rest else rest

-- `sorted(events, key=lambda event: event.sequence)`, which is stable.
unfoldable pub insert_event : TaskEvent → List TaskEvent → List TaskEvent
insert_event e [] = e ∷ []
insert_event e (x ∷ xs) =
    let rest = insert_event e xs in if leb e.sequence x.sequence then e ∷ x ∷ xs else x ∷ rest

unfoldable pub sort_events : List TaskEvent → List TaskEvent
unfolding insert_event
sort_events [] = []
sort_events (e ∷ es) = insert_event e (sort_events es)

-- `page_events[-1].sequence if page_events else after_sequence`
unfoldable pub last_sequence : ℕ → List TaskEvent → ℕ
last_sequence after [] = after
last_sequence after (e ∷ es) = last_sequence e.sequence es

-- The page of the events of one task behind a cursor.
unfoldable pub page_of : Str → ℕ → ℕ → List TaskEvent → TaskEventPageRecord
unfolding sort_events last_sequence
page_of task_id after limit events =
    let ordered = sort_events (events_after task_id after events) in
    let window = take (suc limit) ordered in
    let page_events = take limit window in
    record {
      task_id = task_id;
      events = page_events;
      next_cursor = last_sequence after page_events;
      has_more = ltb limit (length window);
    }

unfoldable pub list_authorized_events :
    Str → Str → Str → ℕ → ℕ → Repository → Option TaskEventPageRecord
list_authorized_events task_id actor_id device_id after limit r =
    elim (owned_projection task_id actor_id device_id r) [
      | none ↦ none
      | some _ ↦ some (page_of task_id after limit r.events)
    ]

-- `max(sequences, default=0)`
unfoldable pub max_sequence : List TaskEvent → ℕ
max_sequence [] = 0
max_sequence (e ∷ es) = max e.sequence (max_sequence es)

-- `max(sequences) + 1`, which raises a `ValueError` where there is no event.
unfoldable pub next_sequence : List TaskEvent → Option ℕ
unfolding max_sequence
next_sequence [] = none
next_sequence (e ∷ es) = some (max_sequence (e ∷ es) + 1)

unfoldable pub append_event_for_test : TaskEvent → Repository → Repository × Result (Unit {0})
append_event_for_test e r =
    if not (contains e.task_id r.tasks)
    then (r, err TaskError.task_does_not_exist)
    else if not (e.sequence == max_sequence (events_of e.task_id r.events) + 1)
    then (r, err TaskError.sequence_must_be_contiguous)
    else if any (λ stored. stored.event_id == e.event_id) r.events
    then (r, err TaskError.event_id_must_be_unique)
    else (record r { events = r.events ++ e ∷ [] }, ok tt)

-- ===== src/Tasks/Tests.antt =====
-- Runs of the repository and the services of backend/src/jarvis/tasks on one task with one approval,
-- and the theorems at such inputs.
use sriee.Base.{
  ◌+◌, ◌≡◌, ◌↔◌, refl, false, Option, none, some, [], arith, length, take, drop, ltb, str_eq,
  str_beq, str_beq_iff, ◌≢◌,
}
use mathlib.Core.Bool.{false≢true}
use sriee.Text.{Str, codes}
use sriee.Dict.{lookup, insert}
use sriee.Tasks.Errors.{ok, err, TaskError}
use sriee.Tasks.Model.{
  TaskInputType, TaskStatus, TaskRecord, TaskCreationBundle, TaskProjectionRecord,
  TaskCancellationOutcome, ApprovalRecord, ApprovalStatus, ApprovalDecision,
  ApprovalDecisionOutcome,
}
use sriee.Tasks.Repository.{
  Repository, empty, create_or_get, new_outcome, initial_projection, list_authorized_events,
  page_of, events_of, next_sequence,
}
use sriee.Tasks.Control.{
  Stamp, request_cancellation, decide_approval, put_pending_approval_for_test, cancellation_outcome,
  pending_projection,
}
use sriee.Tasks.Invariant.{IsValid, IsFresh}
use sriee.Tasks.Steps.{Steps, here, next, create, put, decide, empty-IsValid, Steps-IsValid}
use sriee.Tasks.Once.{create_or_get_once, request_cancellation_once, decide_approval_once}
use sriee.Tasks.Control.Access.{Foreign-hidden, IsDocumented}
use sriee.Tasks.Control.Decision.{
  Decidable, decide_approval_accepts, control_recovers, approval_revives_cancelled, CancelAtomic,
  DecideAtomic,
}
use sriee.Tasks.Control.Effects.{IsDecided, decide_approval_effects}
use sriee.Tasks.Pages.{page_of_numbered}

abbrev pub task0 : TaskRecord
task0 = record {
  task_id = codes "tsk_00112233445566778899aabbccddeeff";
  actor_id = codes "ann";
  device_id = codes "laptop";
  contract_version = codes "1.0";
  input_type = TaskInputType.text;
  input_content = codes "hello";
  status = TaskStatus.created;
  idempotency_key = codes "key";
  request_hash = codes "hash";
  correlation_id = codes "corr";
  created_at = 10;
}

abbrev pub bundle0 : TaskCreationBundle
bundle0 = record {
  task = task0;
  event = record {
    event_id = codes "evt_0";
    task_id = codes "tsk_00112233445566778899aabbccddeeff";
    sequence = 1;
    event_type = codes "task.created";
    schema_version = codes "1.0";
    occurred_at = 10;
    correlation_id = codes "corr";
    details = [];
  };
  outbox = record {
    outbox_id = codes "out_0";
    event_type = codes "graph.task.requested";
    schema_version = codes "1.0";
    aggregate_id = codes "tsk_00112233445566778899aabbccddeeff";
    occurred_at = 10;
    correlation_id = codes "corr";
    details = [];
  };
}

abbrev approval0 : ApprovalRecord
approval0 = record {
  approval_id = codes "apr_1";
  task_id = codes "tsk_00112233445566778899aabbccddeeff";
  actor_id = codes "ann";
  device_id = codes "laptop";
  action_id = codes "act_1";
  action_digest = codes "digest";
  status = ApprovalStatus.pending;
  expires_at = 100;
  decided_at = none;
  decision = none;
}

abbrev stamp0 : Stamp
stamp0 = record {
  event_uuid = codes "e";
  outbox_uuid = codes "o";
  correlation_id = codes "c";
  at = 20;
}

abbrev tid : Str
tid = codes "tsk_00112233445566778899aabbccddeeff"

abbrev pub one_task : Repository
one_task = (create_or_get bundle0 empty).0

abbrev waiting : Repository
waiting = (put_pending_approval_for_test approval0 one_task).0

pub fresh0 : IsFresh bundle0 empty
unfolding lookup
fresh0 = record { first = refl; same_task = refl; unused = refl }

pub one_task-IsValid : IsValid one_task
one_task-IsValid = Steps-IsValid (next here (create bundle0 fresh0)) empty-IsValid

to_waiting : Steps empty waiting
unfolding create_or_get lookup
to_waiting = next (next here (create bundle0 fresh0)) (put approval0)

waiting-IsValid : IsValid waiting
waiting-IsValid = Steps-IsValid to_waiting empty-IsValid

Steps-IsValid_example :
    IsValid
      (decide_approval
        (codes "apr_1")
        (codes "ann")
        (codes "laptop")
        (codes "digest")
        ApprovalDecision.approve
        stamp0
        waiting).0
Steps-IsValid_example =
    Steps-IsValid
      (next to_waiting (
        decide (codes "apr_1") (codes "ann") (codes "laptop") (codes "digest")
          ApprovalDecision.approve stamp0))
      empty-IsValid

-- What a run of the repository computes through.
runs : Unit {0}
unfolding request_cancellation decide_approval put_pending_approval_for_test create_or_get lookup
    insert str_beq events_of next_sequence
runs = tt

abbrev ann : Str
ann = codes "ann"

abbrev laptop : Str
laptop = codes "laptop"

abbrev apr : Str
apr = codes "apr_1"

abbrev digest : Str
digest = codes "digest"

abbrev projection0 : TaskProjectionRecord
projection0 = record (initial_projection task0) {
  status = TaskStatus.awaiting_approval;
  pending_approval = some (pending_projection approval0);
}

create_or_get_once_example :
    create_or_get bundle0 waiting ≡ (waiting, ok (record (new_outcome bundle0) { created = false }))
unfolding runs
create_or_get_once_example =
    create_or_get_once bundle0 bundle0 empty refl (next here (put approval0)) refl

-- Another approval of the task, filed behind the decision.
abbrev another : ApprovalRecord
another = record approval0 { approval_id = codes "another" }

decide_approval_once_example :
    let r =
      (put_pending_approval_for_test another
        (decide_approval apr ann laptop digest ApprovalDecision.approve stamp0 waiting).0).0 in
    decide_approval apr ann laptop digest ApprovalDecision.deny stamp0 r
    ≡ (r, err TaskError.approval_consumed)
unfolding runs
decide_approval_once_example =
    decide_approval_once apr ann laptop digest digest ApprovalDecision.approve ApprovalDecision.deny
      stamp0 stamp0 waiting refl (next here (put another)) (tt, refl)

request_cancellation_once_example :
    let r = (request_cancellation tid ann laptop stamp0 waiting).0 in
    request_cancellation tid ann laptop stamp0 r
    ≡ (r, ok (some (record (cancellation_outcome tid 2 projection0 stamp0) { created = false })))
unfolding runs
request_cancellation_once_example =
    request_cancellation_once tid ann laptop stamp0 stamp0 waiting waiting-IsValid refl refl here

able : Decidable apr ann laptop digest 20 waiting approval0
unfolding runs
able = (refl, refl, refl, refl, omega arith, refl)

decide_approval_accepts_example :
    ((o : ApprovalDecisionOutcome) × ((decide_approval apr ann laptop digest ApprovalDecision.deny
          stamp0 waiting).1
        ≡ ok (some o)))
    ↔ ((a : ApprovalRecord) × Decidable apr ann laptop digest 20 waiting a)
decide_approval_accepts_example =
    decide_approval_accepts apr ann laptop digest ApprovalDecision.deny stamp0 waiting
      waiting-IsValid

decide_approval_effects_example :
    (p : TaskProjectionRecord) × (lookup tid waiting.projections ≡ some p)
    × IsDecided apr approval0 p stamp0 waiting ApprovalDecision.approve ApprovalStatus.approved
        TaskStatus.executing
        (codes "approve")
        (decide_approval apr ann laptop digest ApprovalDecision.approve stamp0 waiting)
    × IsDecided apr approval0 p stamp0 waiting ApprovalDecision.deny ApprovalStatus.denied
        TaskStatus.denied
        (codes "deny")
        (decide_approval apr ann laptop digest ApprovalDecision.deny stamp0 waiting)
decide_approval_effects_example =
    decide_approval_effects apr ann laptop digest stamp0 waiting approval0 waiting-IsValid able

not_bob : ann ≢ codes "bob"
unfolding str_beq
not_bob h = false≢true ((str_beq_iff ann (codes "bob")).1 h)

Foreign-hidden_example :
    (list_authorized_events tid (codes "bob") laptop 0 10 waiting ≡ none)
    × ((request_cancellation tid (codes "bob") laptop stamp0 waiting ≡ (waiting, ok none))
        × (decide_approval apr (codes "bob") laptop digest ApprovalDecision.approve stamp0 waiting
            ≡ (waiting, ok none)))
unfolding runs
Foreign-hidden_example =
    Foreign-hidden tid apr (codes "bob") laptop digest ApprovalDecision.approve stamp0 0 10 waiting
      (λ h. not_bob h.0) (λ h. not_bob h.0)

control_recovers_example :
    (((o : Option TaskCancellationOutcome) × ((request_cancellation tid ann laptop stamp0 waiting).1
          ≡ ok o))
      × IsDocumented
          (decide_approval apr ann laptop (codes "forged") ApprovalDecision.deny stamp0 waiting).1)
    × (CancelAtomic waiting (request_cancellation tid ann laptop stamp0 waiting)
        × DecideAtomic waiting
            (decide_approval apr ann laptop (codes "forged") ApprovalDecision.deny stamp0 waiting))
control_recovers_example =
    control_recovers tid apr ann laptop (codes "forged") ApprovalDecision.deny stamp0 waiting
      waiting-IsValid

approval_revives_cancelled_example :
    let r' =
      (decide_approval apr ann laptop digest ApprovalDecision.approve stamp0
        (request_cancellation tid ann laptop stamp0 waiting).0).0 in
    ((p : TaskProjectionRecord) × (lookup tid r'.projections ≡ some p)
      × (p.status ≡ TaskStatus.executing))
    × (request_cancellation tid ann laptop stamp0 r' ≡ (
      r',
      ok (some (record (cancellation_outcome tid 2 projection0 stamp0) { created = false })),
    ))
unfolding runs
approval_revives_cancelled_example =
    approval_revives_cancelled apr ann laptop digest stamp0 stamp0 stamp0 waiting approval0
      waiting-IsValid refl refl able

page_of_numbered_example :
    let rest = drop 0 (events_of tid waiting.events) in
    page_of tid 0 10 waiting.events ≡ record {
      task_id = tid;
      events = take 10 rest;
      next_cursor = 0 + length (take 10 rest);
      has_more = ltb 10 (length rest);
    }
page_of_numbered_example = page_of_numbered tid 0 10 waiting.events (waiting-IsValid.numbered tid)

-- ===== src/Tasks/Kept.antt =====
-- What is stored in the registers of the repository (backend/src/jarvis/tasks/repository.py) stays,
-- over any sequence of calls.
use sriee.Base.{◌≡◌, false, some, str_eq, nat_eq}
use sriee.Text.{Str}
use sriee.Dict.{lookup}
use sriee.Tasks.Model.{
  TaskCreationOutcome, TaskCancellationOutcome, TaskRecord, ApprovalRecord, Scope, scope_eq,
}
use sriee.Tasks.Repository.{Repository}
use sriee.Tasks.Control.{is_pending}
use sriee.Tasks.Steps.{
  Step, Steps, create, replace, append, cancel, decide, put, here, next, NotFiled, NeverFiled,
}
use sriee.Tasks.Frame.{
  cancel-by_idempotency, decide-by_idempotency, replace_frame, append_frame, create_frame,
  cancel-approvals, decide-cancellations, put_frame, create-remembered, cancel-cancelled,
  decide-settled, put-settled, create-tasks, replace-tasks, append-tasks, cancel-tasks,
  decide-tasks, put-tasks,
}

-- An outcome that is remembered for an idempotency key stays.
pub Step-remembered :
    {r r' : Repository} (s : Scope) {o : TaskCreationOutcome}
    → Step r r'
    → lookup s r.by_idempotency ≡ some o
    → lookup s r'.by_idempotency ≡ some o
Step-remembered {r} s (create b f) h = create-remembered b s r h
Step-remembered {r} s (replace q) h = rw (replace_frame q r).0 h
Step-remembered {r} s (append e) h = rw (append_frame e r).0 h
Step-remembered {r} s (cancel t x y m) h = rw (cancel-by_idempotency t x y m r) h
Step-remembered {r} s (decide i x y g d m) h = rw (decide-by_idempotency i x y g d m r) h
Step-remembered {r} s (put a) h = rw (put_frame a r).0 h

pub Step-cancelled :
    {r r' : Repository} (u : Str) {c : TaskCancellationOutcome}
    → Step r r'
    → lookup u r.cancellations ≡ some c
    → lookup u r'.cancellations ≡ some c
Step-cancelled {r} u (create b f) h = rw (create_frame b r).0 h
Step-cancelled {r} u (replace q) h = rw (replace_frame q r).1 h
Step-cancelled {r} u (append e) h = rw (append_frame e r).1 h
Step-cancelled {r} u (cancel t x y m) h = cancel-cancelled t x y m u r h
Step-cancelled {r} u (decide i x y g d m) h = rw (decide-cancellations i x y g d m r) h
Step-cancelled {r} u (put a) h = rw (put_frame a r).1 h

pub Step-settled :
    {r r' : Repository} (j : Str) {a : ApprovalRecord} (step : Step r r')
    → NotFiled j step
    → is_pending a.status ≡ false
    → lookup j r.approvals ≡ some a
    → lookup j r'.approvals ≡ some a
Step-settled {r} j (create b f) n p h = rw (create_frame b r).1 h
Step-settled {r} j (replace q) n p h = rw (replace_frame q r).2 h
Step-settled {r} j (append e) n p h = rw (append_frame e r).2 h
Step-settled {r} j (cancel t x y m) n p h = rw (cancel-approvals t x y m r) h
Step-settled {r} j (decide i x y g d m) n p h = decide-settled i x y g d m j r h p
Step-settled {r} j (put a) n p h = put-settled a j r n h

pub Step-tasks :
    {r r' : Repository} (t : Str) {k : TaskRecord}
    → Step r r'
    → lookup t r.tasks ≡ some k
    → lookup t r'.tasks ≡ some k
Step-tasks {r} t (create b f) h = create-tasks b t r f.unused h
Step-tasks {r} t (replace q) h = rw (replace-tasks q r) h
Step-tasks {r} t (append e) h = rw (append-tasks e r) h
Step-tasks {r} t (cancel u x y m) h = rw (cancel-tasks u x y m r) h
Step-tasks {r} t (decide i x y g d m) h = rw (decide-tasks i x y g d m r) h
Step-tasks {r} t (put a) h = rw (put-tasks a r) h

pub Steps-remembered :
    {r r' : Repository} (s : Scope) {o : TaskCreationOutcome}
    → Steps r r'
    → lookup s r.by_idempotency ≡ some o
    → lookup s r'.by_idempotency ≡ some o
Steps-remembered s here h = h
Steps-remembered s (next steps step) h = Step-remembered s step (Steps-remembered s steps h)

pub Steps-cancelled :
    {r r' : Repository} (u : Str) {c : TaskCancellationOutcome}
    → Steps r r'
    → lookup u r.cancellations ≡ some c
    → lookup u r'.cancellations ≡ some c
Steps-cancelled u here h = h
Steps-cancelled u (next steps step) h = Step-cancelled u step (Steps-cancelled u steps h)

pub Steps-settled :
    {r r' : Repository} (j : Str) {a : ApprovalRecord} (steps : Steps r r')
    → NeverFiled j steps
    → is_pending a.status ≡ false
    → lookup j r.approvals ≡ some a
    → lookup j r'.approvals ≡ some a
Steps-settled j here n p h = h
Steps-settled j (next steps step) n p h = Step-settled j step n.1 p (Steps-settled j steps n.0 p h)

pub Steps-tasks :
    {r r' : Repository} (t : Str) {k : TaskRecord}
    → Steps r r'
    → lookup t r.tasks ≡ some k
    → lookup t r'.tasks ≡ some k
Steps-tasks t here h = h
Steps-tasks t (next steps step) h = Step-tasks t step (Steps-tasks t steps h)

-- ===== src/Tasks/Steps.antt =====
-- The calls that reach the repository (backend/src/jarvis/tasks/repository.py), one at a time under
-- its lock, as a step relation. The identifier of the task of a bundle is from `uuid4` and is new.
-- An approval may be filed under any identifier, also one that is in use: it replaces what is there.
use sriee.Base.{◌≡◌, refl, false, str_eq, ◌==◌}
use sriee.Text.{Str}
use sriee.Dict.{lookup}
use sriee.Tasks.Model.{
  TaskEvent, TaskProjectionRecord, TaskCreationBundle, ApprovalRecord, ApprovalDecision, scope_eq,
}
use sriee.Tasks.Repository.{
  Repository, empty, events_of, create_or_get, replace_projection, append_event_for_test,
}
use sriee.Tasks.Control.{
  Stamp, request_cancellation, decide_approval, put_pending_approval_for_test,
}
use sriee.Tasks.Invariant.{IsValid, IsFresh}
use sriee.Tasks.Invariant.Create.{create_or_get-IsValid}
use sriee.Tasks.Invariant.Methods.{
  replace_projection-IsValid, append_event_for_test-IsValid, request_cancellation-IsValid,
  decide_approval-IsValid, put_pending_approval_for_test-IsValid,
}

-- One call of a method.
pub data Step (r : Repository) : Repository → Type 0 where
  create : (b : TaskCreationBundle) → IsFresh b r → Step r (create_or_get b r).0
  replace : (q : TaskProjectionRecord) → Step r (replace_projection q r).0
  append : (e : TaskEvent) → Step r (append_event_for_test e r).0
  cancel :
      (t actor_id device_id : Str) (s : Stamp)
      → Step r (request_cancellation t actor_id device_id s r).0
  decide :
      (i actor_id device_id digest : Str) (d : ApprovalDecision) (s : Stamp)
      → Step r (decide_approval i actor_id device_id digest d s r).0
  put : (a : ApprovalRecord) → Step r (put_pending_approval_for_test a r).0

pub data Steps (r : Repository) : Repository → Type 0 where
  here : Steps r r
  next : {s t : Repository} → Steps r s → Step s t → Steps r t

-- No approval is filed under the identifier `i`.
abbrev pub NotFiled : Str → {r s : Repository} → Step r s → Type 0
NotFiled i (create b f) = Unit
NotFiled i (replace q) = Unit
NotFiled i (append e) = Unit
NotFiled i (cancel t x y s) = Unit
NotFiled i (decide j x y g d s) = Unit
NotFiled i (put a) = (a.approval_id == i) ≡ false

abbrev pub NeverFiled : Str → {r s : Repository} → Steps r s → Type 0
NeverFiled i here = Unit
NeverFiled i (next steps step) = NeverFiled i steps × NotFiled i step

pub Step-IsValid : {r s : Repository} → Step r s → IsValid r → IsValid s
Step-IsValid {r} (create b f) v = create_or_get-IsValid b r f v
Step-IsValid {r} (replace q) v = replace_projection-IsValid q r v
Step-IsValid {r} (append e) v = append_event_for_test-IsValid e r v
Step-IsValid {r} (cancel t x y s) v = request_cancellation-IsValid t x y s r v
Step-IsValid {r} (decide i x y g d s) v = decide_approval-IsValid i x y g d s r v
Step-IsValid {r} (put a) v = put_pending_approval_for_test-IsValid a r v

pub empty-IsValid : IsValid empty
unfolding lookup events_of
empty-IsValid = record {
  numbered = λ t. tt;
  known = λ t h. refl;
  begun = λ t h. cc;
  projected = λ t. refl;
  represented = λ t p h. absurd (cc);
  owned = λ i a h. absurd (cc);
  remembered = λ s o h. absurd (cc);
  cancelled = λ t c h. absurd (cc);
}

-- A well-formed repository stays so, whatever calls are made of it, if a task that is created has a new
-- identifier: each task has a projection with its owner and events
-- that are numbered from 1 without a gap, each approval belongs to the owner of a task, and what
-- is recorded of creations and cancellations is an outcome that was new.
pub Steps-IsValid : {r s : Repository} → Steps r s → IsValid r → IsValid s
Steps-IsValid here v = v
Steps-IsValid (next steps step) v = Step-IsValid step (Steps-IsValid steps v)

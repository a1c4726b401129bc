-- ===== src/Graph/Approval/Pause.antt =====
-- `pauseForApproval` of backend/src/jarvis/graph/approval.py. The store, LangGraph's interrupt and the
-- size of a JSON text are parameters.
use native.Mathlib.Decide.{ℕ_discrete}
use sriee.Base.{
  ℕ, Bool, true, false, not, ◌&&◌, Option, none, some, List, [], ◌∷◌, ◌==◌, str_eq, leb, map, any,
  all, keep, if◌then◌else◌,
}
use sriee.Text.{Str, codes}
use sriee.Graph.Plan.{PlanDraft, PlanActionDraft}
use sriee.Graph.Patterns.{is_digest_id, is_sha256}
use sriee.Graph.Node.{
  Node, refused, key_error, interrupted, done, ◌>>=◌, ◌>>◌, require, some_or, same,
}
use sriee.Graph.Policy.Contract.{PolicyDecision, distinct, is_ask, is_deny}
use sriee.Graph.Policy.Evaluate.{Answer, unavailable, malformed, answered}
use sriee.Graph.State.{
  ActionPreview, PendingRequest, PendingRecord, ResumeCandidate, PendingApproval, nothing, paused,
  GraphState, Identity, identity_of, has_status, same_set, decision_for,
}
use sriee.Graph.Approval.Request.{DigestPayload, build_request, valid_pending_record}

-- `ApprovalPauseSettings`
pub record ApprovalPauseSettings : Type 0 where
  pub expires_after_seconds : ℕ
  pub max_interrupt_payload_bytes : ℕ
  pub max_resume_payload_bytes : ℕ

abbrev bounded : ℕ → ℕ → ℕ → Bool
bounded lo hi n = leb lo n && leb n hi

-- `_validate_settings`
unfoldable pub valid_pause_settings : ApprovalPauseSettings → Bool
valid_pause_settings s =
    bounded 30 3600 s.expires_after_seconds
    && (bounded 1024 65536 s.max_interrupt_payload_bytes
        && bounded 256 32768 s.max_resume_payload_bytes)

abbrev pub is_nothing : PendingApproval → Bool
is_nothing nothing = true
is_nothing _ = false

abbrev pub asks : List PolicyDecision → List PolicyDecision
asks ds = keep (λ d. is_ask d.decision) ds

abbrev pub is_empty {ℓ} : {A : Type ℓ} → List A → Bool
is_empty [] = true
is_empty (_ ∷ _) = false

-- `len({f(item) for item in items}) == 1`
abbrev pub all_equal : List Str → Bool
all_equal [] = false
all_equal (x ∷ xs) = all (λ y. y == x) xs

-- The relations between the plan and its decisions that `_validate_state` checks.
unfoldable pub valid_decisions : PlanDraft → List PolicyDecision → Bool
valid_decisions plan ds =
    (plan.schema_version == codes "1.0"
      && (not (is_empty plan.actions) && distinct (map (λ d. d.action_id) ds)))
    && ((same_set (map (λ d. d.action_id) ds) (map (λ a. a.action_id) plan.actions)
          && not (any (λ d. is_deny d.decision) ds))
        && ((not (is_empty (asks ds)) && all (λ d. d.requires_fresh_approval) (asks ds))
            && (all_equal (map (λ d. d.policy_reference_id) ds)
                && all_equal (map (λ d. d.policy_version) ds))))

-- What `_validate_state` returns.
pub record PauseInput : Type 0 where
  pub identity : Identity
  pub plan : PlanDraft
  pub decisions : List PolicyDecision

abbrev pub contract : Str
contract = codes "approval_pause_contract_invalid"

-- `_validate_state`
unfoldable pub pause_input : GraphState → Node PauseInput
unfolding identity_of valid_decisions
pause_input s = do
  require (has_status (codes "awaiting_approval") s && is_nothing s.pending_approval)
      (codes "approval_pause_state_invalid")
  i ← some_or (codes "approval_pause_identity_invalid") (identity_of s)
  plan ← some_or contract s.plan
  ds ← some_or contract s.policy_decisions
  require (valid_decisions plan ds) contract
  done (record { identity = i; plan = plan; decisions = ds })

-- `_selected_action`: the first action whose decision asks.
unfoldable pub selected_action :
    List PlanActionDraft → List PolicyDecision → Node (PlanActionDraft × PolicyDecision)
unfolding decision_for
selected_action [] ds = refused contract
selected_action (a ∷ actions) ds =
    let rest = selected_action actions ds in
    elim (decision_for a.action_id ds) [
      | none ↦ key_error
      | some d ↦ if is_ask d.decision then done (a, d) else rest
    ]

unfoldable pub preview_discrete : Discrete ActionPreview
preview_discrete = hlevel ℕ_discrete

unfoldable pub pending_request_discrete : Discrete PendingRequest
pending_request_discrete = hlevel ℕ_discrete

-- `_validate_record`
unfoldable pub pending_record : PendingRequest → Answer PendingRecord → Node PendingRecord
unfolding valid_pending_record pending_request_discrete
pending_record r unavailable = refused (codes "approval_persistence_unavailable")
pending_record r malformed = refused (codes "approval_persistence_invalid")
pending_record r (answered x) = do
  require (valid_pending_record x) (codes "approval_persistence_invalid")
  require (same pending_request_discrete x.request r) (codes "approval_persistence_conflict")
  done x

-- What the desktop resumes with: the bytes of its JSON (`none`: it has none), and the candidate that
-- it is as an `ApprovalResumeCandidate` before its patterns are checked.
pub record ResumeValue : Type 0 where
  pub bytes : Option ℕ
  pub candidate : Option ResumeCandidate

-- `_validate_resume_value`
unfoldable pub resume_candidate : ℕ → ResumeValue → Node ResumeCandidate
resume_candidate max_bytes v = do
  n ← some_or (codes "approval_resume_payload_invalid") v.bytes
  require (leb n max_bytes) (codes "approval_resume_payload_invalid")
  c ← some_or (codes "approval_resume_payload_invalid") v.candidate
  require (is_digest_id (codes "apr_") c.approval_id && is_sha256 c.action_digest)
      (codes "approval_resume_payload_invalid")
  done c

-- The store's answer to a request; what the interrupt gives for a record, `none` while it waits; and
-- the bytes of the interrupt's payload, which is made of the record.
pub record PauseService : Type 0 where
  pub settings : ApprovalPauseSettings
  pub create_or_get : PendingRequest → Answer PendingRecord
  pub interrupt : PendingRecord → Option ResumeValue
  pub payload_bytes : PendingRecord → ℕ

abbrev pub resumed : Option ResumeValue → Node ResumeValue
resumed none = interrupted
resumed (some v) = done v

module _ (sha256 : Str → Str) (json : DigestPayload → Str) where
  -- `pauseForApproval`; what it returns is put into the state.
  unfoldable pub pause_for_approval : PauseService → GraphState → Node GraphState
  unfolding valid_pause_settings pause_input selected_action build_request pending_record
      resume_candidate
  pause_for_approval service s = do
    require (valid_pause_settings service.settings) (codes "approval_pause_settings_incompatible")
    input ← pause_input s
    chosen ← selected_action input.plan.actions input.decisions
    r ←
        build_request sha256 json service.settings.expires_after_seconds input.identity input.plan
          chosen.0 chosen.1
    x ← pending_record r (service.create_or_get r)
    require (leb (service.payload_bytes x) service.settings.max_interrupt_payload_bytes)
        (codes "approval_interrupt_payload_invalid")
    v ← resumed (service.interrupt x)
    c ← resume_candidate service.settings.max_resume_payload_bytes v
    done (record s {
      status = some (codes "awaiting_approval");
      pending_approval = paused (record { pending = x; resume = c });
    })

-- ===== src/Graph/Approval/Resume.antt =====
-- `resumeApproval` of backend/src/jarvis/graph/approval_resume.py. The store is a parameter.
use native.Mathlib.Decide.{ℕ_discrete}
use sriee.Base.{
  Bool, true, false, ◌&&◌, Option, none, some, ◌==◌, str_eq, nat_eq, leb, ltb, if◌then◌else◌,
}
use sriee.Text.{Str, codes}
use sriee.Tasks.Service.{is_task_id}
use sriee.Graph.Patterns.{
  is_action_id, is_word_id, is_digest_id, is_sha256, is_principal_id, is_thread_id,
}
use sriee.Graph.Node.{Node, refused, done, ◌>>=◌, ◌>>◌, require, some_or, same, Moment}
use sriee.Graph.Policy.Contract.{RiskTier}
use sriee.Graph.State.{
  PendingRequest, ApprovalCheckpoint, PendingApproval, paused, resolved, ApprovalOutcome, approved,
  denied, expired, ApprovalResult, GraphState, Identity, has_status,
}
use sriee.Graph.Approval.Request.{valid_pending_record}

-- `ApprovalResolutionRequest`
pub record ResolutionRequest : Type 0 where
  pub approval_id : Str
  pub identity : Identity
  pub action_id : Str
  pub action_digest : Str
  pub pending_event_id : Str
  pub issued_at : Moment
  pub expires_at : Moment
  pub is_approve : Bool

-- `ApprovalResolutionRecord`
pub record ResolutionRecord : Type 0 where
  pub request : ResolutionRequest
  pub resolution_id : Str
  pub outcome : ApprovalOutcome
  pub decided_at : Moment

-- What the store does: it raises `ApprovalResolutionConsumedError` or something else, or returns
-- something that is no `ApprovalResolutionRecord`, or a record.
pub data Resolution : Type 0 where
  consumed failing wrong_type : Resolution
  record_of : ResolutionRecord → Resolution

abbrev same_tier : RiskTier → RiskTier → Bool
same_tier a b = same (hlevel) a b

-- The patterns of `ApprovalResumeCandidate` and `validate_pending_record` of `ApprovalCheckpoint`.
unfoldable pub valid_checkpoint : ApprovalCheckpoint → Bool
unfolding valid_pending_record
valid_checkpoint c =
    let r = c.pending.request in
    let p = r.preview in
    valid_pending_record c.pending
    && ((is_digest_id (codes "apr_") c.resume.approval_id && is_sha256 c.resume.action_digest)
        && ((p.action_id == r.action_id
              && (p.action_digest == r.action_digest && same_tier p.risk_tier r.risk_tier))
            && (p.policy_reference_id == r.policy_reference_id
                && p.policy_version == r.policy_version)))

-- `ApprovalCheckpoint.model_validate(state.get("pending_approval"))`
abbrev pub checkpoint_of : PendingApproval → Option ApprovalCheckpoint
checkpoint_of (paused c) = if valid_checkpoint c then some c else none
checkpoint_of _ = none

abbrev is_text : Option Str → Str → Bool
is_text none x = false
is_text (some y) x = y == x

-- The state's identifiers are of their patterns and those of the request.
unfoldable pub same_identity : GraphState → PendingRequest → Bool
same_identity s r =
    (is_text s.task_id r.task_id && is_task_id r.task_id)
    && ((is_text s.thread_id r.thread_id && is_thread_id r.thread_id)
        && ((is_text s.actor_id r.actor_id && is_principal_id r.actor_id)
            && (is_text s.device_id r.device_id && is_principal_id r.device_id)))

-- `_load_checkpoint`
unfoldable pub load_checkpoint : Str → GraphState → Node ApprovalCheckpoint
unfolding same_identity valid_checkpoint
load_checkpoint runtime_thread_id s = do
  require (has_status (codes "awaiting_approval") s) (codes "approval_resume_state_invalid")
  require (is_thread_id runtime_thread_id) (codes "approval_resume_thread_invalid")
  c ← some_or (codes "approval_resume_checkpoint_invalid") (checkpoint_of s.pending_approval)
  require (same_identity s c.pending.request) (codes "approval_resume_identity_mismatch")
  require (runtime_thread_id == c.pending.request.thread_id)
      (codes "approval_resume_thread_mismatch")
  require
      (c.resume.approval_id == c.pending.request.approval_id
        && c.resume.action_digest == c.pending.request.action_digest)
      (codes "approval_resume_candidate_mismatch")
  done c

-- `_resolution_request`
unfoldable pub resolution_request : ApprovalCheckpoint → ResolutionRequest
resolution_request c = record {
  approval_id = c.pending.request.approval_id;
  identity = record {
    task_id = c.pending.request.task_id;
    thread_id = c.pending.request.thread_id;
    actor_id = c.pending.request.actor_id;
    device_id = c.pending.request.device_id;
  };
  action_id = c.pending.request.action_id;
  action_digest = c.pending.request.action_digest;
  pending_event_id = c.pending.event_id;
  issued_at = c.pending.issued_at;
  expires_at = c.pending.expires_at;
  is_approve = c.resume.is_approve;
}

abbrev is_expired : ApprovalOutcome → Bool
is_expired expired = true
is_expired _ = false

abbrev is_expected : Bool → ApprovalOutcome → Bool
is_expected true approved = true
is_expected false denied = true
is_expected _ _ = false

-- The field constraints of `ApprovalResolutionRequest` and `validate_times`.
unfoldable pub valid_resolution_request : ResolutionRequest → Bool
valid_resolution_request r =
    (is_digest_id (codes "apr_") r.approval_id
      && (is_task_id r.identity.task_id && is_thread_id r.identity.thread_id))
    && ((is_principal_id r.identity.actor_id && is_principal_id r.identity.device_id)
        && ((is_action_id r.action_id
              && (is_sha256 r.action_digest && is_word_id (codes "evt_") r.pending_event_id))
            && ((r.issued_at.is_aware && r.expires_at.is_aware)
                && ltb r.issued_at.at r.expires_at.at)))

-- The field constraints of `ApprovalResolutionRecord` and `validate_outcome`.
unfoldable pub valid_resolution : ResolutionRecord → Bool
unfolding valid_resolution_request
valid_resolution x =
    (valid_resolution_request x.request
      && (is_digest_id (codes "ars_") x.resolution_id && x.decided_at.is_aware))
    && (if is_expired x.outcome
        then leb x.request.expires_at.at x.decided_at.at
        else ltb x.decided_at.at x.request.expires_at.at
          && is_expected x.request.is_approve x.outcome)

unfoldable pub resolution_request_discrete : Discrete ResolutionRequest
resolution_request_discrete = hlevel ℕ_discrete

-- `_validate_resolution`
unfoldable pub resolution_record : ResolutionRequest → Resolution → Node ResolutionRecord
unfolding valid_resolution resolution_request_discrete
resolution_record r consumed = refused (codes "approval_resolution_consumed")
resolution_record r failing = refused (codes "approval_resolution_unavailable")
resolution_record r wrong_type = refused (codes "approval_resolution_invalid")
resolution_record r (record_of x) = do
  require (valid_resolution x) (codes "approval_resolution_invalid")
  require (same resolution_request_discrete x.request r) (codes "approval_resolution_conflict")
  done x

unfoldable pub approval_result : ResolutionRequest → ResolutionRecord → ApprovalResult
approval_result r x = record {
  approval_id = r.approval_id;
  resolution_id = x.resolution_id;
  thread_id = r.identity.thread_id;
  action_id = r.action_id;
  action_digest = r.action_digest;
  outcome = x.outcome;
  decided_at = x.decided_at;
}

abbrev pub outcome_status : ApprovalOutcome → Str
outcome_status approved = codes "executing"
outcome_status denied = codes "denied"
outcome_status expired = codes "expired"

-- `resumeApproval`; what it returns is put into the state.
unfoldable pub resume_approval :
    (ResolutionRequest → Resolution) → Str → GraphState → Node GraphState
unfolding load_checkpoint resolution_request resolution_record approval_result
resume_approval resolve runtime_thread_id s = do
  c ← load_checkpoint runtime_thread_id s
  x ← resolution_record (resolution_request c) (resolve (resolution_request c))
  done (record s {
    status = some (outcome_status x.outcome);
    pending_approval = resolved (approval_result (resolution_request c) x);
  })

-- ===== src/Graph/State.antt =====
-- What the nodes read of the graph's state (backend/src/jarvis/graph/state.py), each value as the
-- contract that it is validated against, and the contracts that more than one node reads.
use sriee.Base.{
  ℕ, ℤ, Bool, false, ◌&&◌, Option, none, some, List, [], ◌∷◌, ◌==◌, str_eq, if◌then◌else◌, all,
}
use sriee.Text.{Str}
use sriee.Tasks.Service.{is_task_id}
use sriee.Graph.Patterns.{is_principal_id, is_thread_id, str_le}
use sriee.Graph.Plan.{PlanDraft, PlanArgument, PlanSuccessCriterion}
use sriee.Graph.Node.{Moment}
use sriee.Graph.Policy.Contract.{PolicyDecision, RiskTier, has}
use sriee.Graph.Policy.Decide.{sorted}

-- `PriorActionResult.outcome`
pub data ActionOutcome : Type 0 where
  succeeded failed cancelled uncertain : ActionOutcome

-- `PriorActionResult`
pub record PriorActionResult : Type 0 where
  pub dispatch_id : Str
  pub action_id : Str
  pub receipt_id : Str
  pub outcome : ActionOutcome
  pub completed_at : Moment

-- `ApprovalActionPreview`; `schema_version` and `digest_version` are constants.
pub record ActionPreview : Type 0 where
  pub summary : Str
  pub action_id : Str
  pub capability_id : Str
  pub capability_version : Str
  pub parameters : List PlanArgument
  pub resource_ids : List Str
  pub dependency_action_ids : List Str
  pub verification_codes : List Str
  pub timeout_seconds : ℕ
  pub risk_tier : RiskTier
  pub reason_codes : List Str
  pub policy_reference_id : Str
  pub policy_version : Str
  pub action_digest : Str

-- `PendingApprovalRequest`
pub record PendingRequest : Type 0 where
  pub approval_id : Str
  pub task_id : Str
  pub thread_id : Str
  pub actor_id : Str
  pub device_id : Str
  pub action_id : Str
  pub action_digest : Str
  pub decision_id : Str
  pub risk_tier : RiskTier
  pub policy_reference_id : Str
  pub policy_version : Str
  pub preview : ActionPreview
  pub expires_after_seconds : ℕ

-- `PendingApprovalRecord`
pub record PendingRecord : Type 0 where
  pub request : PendingRequest
  pub event_id : Str
  pub issued_at : Moment
  pub expires_at : Moment

-- `ApprovalResumeCandidate`
pub record ResumeCandidate : Type 0 where
  pub approval_id : Str
  pub action_digest : Str
  pub is_approve : Bool

-- `ApprovalCheckpoint`
pub record ApprovalCheckpoint : Type 0 where
  pub pending : PendingRecord
  pub resume : ResumeCandidate

-- `ApprovalOutcome`
pub data ApprovalOutcome : Type 0 where
  approved denied expired : ApprovalOutcome

-- `ApprovalResult`
pub record ApprovalResult : Type 0 where
  pub approval_id : Str
  pub resolution_id : Str
  pub thread_id : Str
  pub action_id : Str
  pub action_digest : Str
  pub outcome : ApprovalOutcome
  pub decided_at : Moment

-- `pending_approval`: `None`, what `pauseForApproval` leaves, what `resumeApproval` leaves, or a
-- value that neither contract accepts.
pub data PendingApproval : Type 0 where
  nothing unreadable : PendingApproval
  paused : ApprovalCheckpoint → PendingApproval
  resolved : ApprovalResult → PendingApproval

-- `none` is a missing value, or one that its contract does not accept. The two lists are read by
-- `state.get(..., ())`: one that is missing is `some []`, and `none` is one that is not accepted.
pub record GraphState : Type 0 where
  pub status : Option Str
  pub task_id : Option Str
  pub thread_id : Option Str
  pub actor_id : Option Str
  pub device_id : Option Str
  pub plan : Option PlanDraft
  pub policy_decisions : Option (List PolicyDecision)
  pub action_results : Option (List PriorActionResult)
  pub pending_approval : PendingApproval
  pub revision_count : Option ℤ

-- The four identifiers of a run.
pub record Identity : Type 0 where
  pub task_id : Str
  pub thread_id : Str
  pub actor_id : Str
  pub device_id : Str

abbrev valid_text : (Str → Bool) → Option Str → Option Str
valid_text p none = none
valid_text p (some x) = if p x then some x else none

-- The identifiers, if each is a text of its pattern.
unfoldable pub identity_of : GraphState → Option Identity
identity_of s = elim (valid_text is_task_id s.task_id) [
  | none ↦ none
  | some t ↦ elim (valid_text is_thread_id s.thread_id) [
    | none ↦ none
    | some h ↦ elim (valid_text is_principal_id s.actor_id) [
      | none ↦ none
      | some a ↦ elim (valid_text is_principal_id s.device_id) [
        | none ↦ none
        | some d ↦ some (record { task_id = t; thread_id = h; actor_id = a; device_id = d })
      ]
    ]
  ]
]

abbrev pub has_status : Str → GraphState → Bool
has_status x s = elim s.status [ none ↦ false | some y ↦ y == x ]

-- `set(xs) <= set(ys)`, and `set(xs) == set(ys)`
abbrev pub is_subset : List Str → List Str → Bool
is_subset xs ys = all (λ x. has x ys) xs

abbrev pub same_set : List Str → List Str → Bool
same_set xs ys = is_subset xs ys && is_subset ys xs

-- `sorted(set(xs))`
abbrev pub unique : List Str → List Str
unique [] = []
unique (x ∷ xs) = if has x xs then unique xs else x ∷ unique xs

unfoldable pub sorted_set : List Str → List Str
unfolding sorted
sorted_set xs = sorted str_le (unique xs)

-- The codes by which a plan says that an action is verified, in order.
unfoldable pub codes_of : Str → List PlanSuccessCriterion → List Str
codes_of action_id [] = []
codes_of action_id (c ∷ cs) =
    let rest = codes_of action_id cs in
    if c.action_id == action_id then c.verification_code ∷ rest else rest

abbrev pub sorted_arguments : List PlanArgument → List PlanArgument
sorted_arguments xs = sorted (λ x y. str_le x.name y.name) xs

-- `{item.action_id: item for item in decisions}`: of two with one key the later one stands.
unfoldable pub decision_for : Str → List PolicyDecision → Option PolicyDecision
decision_for action_id [] = none
decision_for action_id (x ∷ xs) = elim (decision_for action_id xs) [
  | none ↦ if x.action_id == action_id then some x else none
  | some y ↦ some y
]

-- ===== src/Graph/Dispatch/Input.antt =====
-- What a dispatch is given, and the action that is ready (backend/src/jarvis/graph/dispatch.py).
use sriee.Base.{
  Bool, true, false, not, ◌&&◌, Option, none, some, List, [], ◌∷◌, ◌==◌, str_eq, nat_eq, length,
  map, any, if◌then◌else◌,
}
use sriee.Text.{Str, codes}
use sriee.Graph.Patterns.{is_thread_id}
use sriee.Graph.Plan.{PlanDraft, PlanActionDraft}
use sriee.Graph.Node.{Node, refused, done, ◌>>=◌, ◌>>◌, require, some_or}
use sriee.Graph.Policy.Contract.{PolicyDecision, distinct, has, is_deny}
use sriee.Graph.State.{
  ActionOutcome, succeeded, PriorActionResult, PendingApproval, nothing, resolved, ApprovalResult,
  GraphState, Identity, identity_of, has_status, is_subset, same_set,
}

-- What `_load_state` returns.
pub record DispatchInput : Type 0 where
  pub identity : Identity
  pub plan : PlanDraft
  pub decisions : List PolicyDecision
  pub results : List PriorActionResult
  pub approval : Option ApprovalResult

abbrev pub contract : Str
contract = codes "action_dispatch_contract_invalid"

-- `ApprovalResult.model_validate`, where an approval is pending.
abbrev pub approval_of : PendingApproval → Node (Option ApprovalResult)
approval_of nothing = done none
approval_of (resolved a) = done (some a)
approval_of _ = refused contract

-- `_load_state`
unfoldable pub dispatch_input : Str → GraphState → Node DispatchInput
unfolding identity_of
dispatch_input runtime_thread_id s = do
  require (has_status (codes "executing") s) (codes "action_dispatch_state_invalid")
  i ← some_or (codes "action_dispatch_identity_invalid") (identity_of s)
  require (is_thread_id runtime_thread_id) (codes "action_dispatch_identity_invalid")
  require (runtime_thread_id == i.thread_id) (codes "action_dispatch_thread_mismatch")
  plan ← some_or contract s.plan
  ds ← some_or contract s.policy_decisions
  rs ← some_or contract s.action_results
  approval ← approval_of s.pending_approval
  require (plan.schema_version == codes "1.0") contract
  done (record { identity = i; plan = plan; decisions = ds; results = rs; approval = approval })

abbrev pub is_empty {ℓ} : {A : Type ℓ} → List A → Bool
is_empty [] = true
is_empty (_ ∷ _) = false

abbrev pub action_ids : PlanDraft → List Str
action_ids plan = map (λ (a : PlanActionDraft). a.action_id) plan.actions

abbrev pub result_ids : List PriorActionResult → List Str
result_ids rs = map (λ (r : PriorActionResult). r.action_id) rs

-- The test of `_validate_relations`.
unfoldable pub valid_relations : PlanDraft → List PolicyDecision → List PriorActionResult → Bool
valid_relations plan ds rs =
    (not (is_empty plan.actions)
      && (distinct (action_ids plan) && distinct (map (λ d. d.action_id) ds)))
    && ((same_set (map (λ d. d.action_id) ds) (action_ids plan)
          && not (any (λ d. is_deny d.decision) ds))
        && (distinct (result_ids rs) && is_subset (result_ids rs) (action_ids plan)))

abbrev pub is_success : ActionOutcome → Bool
is_success succeeded = true
is_success _ = false

-- The identifiers of the actions that succeeded.
unfoldable pub successes : List PriorActionResult → List Str
successes [] = []
successes (r ∷ rs) =
    let rest = successes rs in if is_success r.outcome then r.action_id ∷ rest else rest

-- The action has not run, and all that it depends on has succeeded.
abbrev pub is_ready : List PriorActionResult → PlanActionDraft → Bool
is_ready rs a = not (has a.action_id (result_ids rs)) && is_subset a.dependencies (successes rs)

-- `_select_action`: the first action that is ready.
unfoldable pub first_ready : List PriorActionResult → List PlanActionDraft → Option PlanActionDraft
unfolding successes
first_ready rs [] = none
first_ready rs (a ∷ actions) =
    let rest = first_ready rs actions in if is_ready rs a then some a else rest

-- Its errors; the results are of distinct actions of the plan.
unfoldable pub select_action : PlanDraft → List PriorActionResult → Node PlanActionDraft
unfolding first_ready
select_action plan rs = elim (first_ready rs plan.actions) [
  | some a ↦ done a
  | none ↦
      if length rs == length plan.actions
      then refused (codes "action_dispatch_plan_complete")
      else refused (codes "action_dispatch_dependencies_unsatisfied")
]

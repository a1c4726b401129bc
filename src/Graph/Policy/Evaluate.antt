-- ===== src/Graph/Policy/Evaluate.antt =====
-- `evaluatePlanPolicy` of backend/src/jarvis/graph/policy.py. The digest of the decision's identifier
-- (the first 24 digits of a SHA-256), the resolver and the advisor are arguments.
use sriee.Base.{
  ℕ, Bool, true, false, not, ◌&&◌, ◌||◌, Option, none, some, List, [], ◌∷◌, ◌++◌, ◌==◌, leb, ltb,
  str_eq, any, all, keep, if◌then◌else◌,
}
use sriee.Text.{Str, codes, after_prefix}
use sriee.Dict.{lookup, is_some}
use sriee.Tasks.Service.{is_task_id}
use sriee.Graph.Plan.{PlanActionDraft, PlanDraft}
use sriee.Graph.Patterns.{str_le, is_principal_id, is_reference_id}
use sriee.Graph.Policy.Contract.{
  PolicyDecision, is_ask, is_deny, distinct, PolicySnapshot, valid_snapshot, SecurityAssessment,
  valid_assessment, validate_decision_contract,
}
use sriee.Graph.Policy.Decide.{
  MutableDecision, Decisions, baseline_decisions, sorted, apply_aggregate_rules,
  apply_security_assessment,
}

-- What is returned or raised: `PlanPolicyError`, pydantic's `ValidationError`, or `KeyError`.
pub data Evaluated {ℓ} (A : Type ℓ) : Type ℓ where
  plan_policy_error : Str → Evaluated A
  validation_error key_error : Evaluated A
  evaluated : A → Evaluated A

-- The answer of the resolver or the advisor: an exception or a timeout, something of another type,
-- or an answer.
pub data Answer {ℓ} (A : Type ℓ) : Type ℓ where
  unavailable malformed : Answer A
  answered : A → Answer A

-- `PlanPolicySettings`, in microseconds.
pub record PlanPolicySettings : Type 0 where
  pub resolver_timeout : ℕ
  pub advisor_timeout : ℕ

-- `_validate_settings`
unfoldable pub valid_settings : PlanPolicySettings → Bool
valid_settings s =
    (ltb 0 s.resolver_timeout && leb s.resolver_timeout 30000000)
    && (ltb 0 s.advisor_timeout && leb s.advisor_timeout 60000000)

-- What the node reads of the graph's state; `none` is a missing value or one of another type, and
-- for `plan` one that is no `PlanDraft`.
pub record PolicyState : Type 0 where
  pub status : Option Str
  pub has_plan : Bool
  pub plan : Option PlanDraft
  pub no_decisions : Bool
  pub task_id : Option Str
  pub actor_id : Option Str
  pub device_id : Option Str
  pub context_refs : Option (List (Option Str))

pub record PolicyTask : Type 0 where
  pub task_id : Str
  pub actor_id : Str
  pub device_id : Str
  pub policy_ref : Str
  pub plan : PlanDraft

-- The references, if all are text.
unfoldable pub texts : List (Option Str) → Option (List Str)
texts [] = some []
texts (none ∷ xs) = none
texts (some x ∷ xs) = elim (texts xs) [ none ↦ none | some ys ↦ some (x ∷ ys) ]

abbrev pub is_policy_ref : Str → Bool
is_policy_ref s = is_some (after_prefix (codes "pol_") s)

-- The one policy reference of valid, distinct references.
abbrev pub single : List Str → Option Str
single (x ∷ []) = some x
single _ = none

unfoldable pub policy_ref_of : Option (List (Option Str)) → Option Str
unfolding texts
policy_ref_of none = none
policy_ref_of (some refs) = elim (texts refs) [
  | none ↦ none
  | some xs ↦ if all is_reference_id xs && distinct xs then single (keep is_policy_ref xs) else none
]

abbrev pub checked : (Str → Bool) → Option Str → Option Str
checked p none = none
checked p (some x) = if p x then some x else none

abbrev pub no_actions : List PlanActionDraft → Bool
no_actions [] = true
no_actions (_ ∷ _) = false

abbrev pub is_planning : Option Str → Bool
is_planning none = false
is_planning (some s) = s == codes "planning"

-- `_validate_state`
unfoldable pub validate_state : PolicyState → Evaluated PolicyTask
unfolding policy_ref_of
validate_state s =
    if not (is_planning s.status && (s.has_plan && s.no_decisions))
    then plan_policy_error (codes "plan_policy_state_invalid")
    else elim (checked is_task_id s.task_id) [
      | none ↦ plan_policy_error (codes "plan_policy_identity_invalid")
      | some task ↦ elim (checked is_principal_id s.actor_id) [
        | none ↦ plan_policy_error (codes "plan_policy_identity_invalid")
        | some actor ↦ elim (checked is_principal_id s.device_id) [
          | none ↦ plan_policy_error (codes "plan_policy_identity_invalid")
          | some device ↦ elim (policy_ref_of s.context_refs) [
            | none ↦ plan_policy_error (codes "plan_policy_context_invalid")
            | some ref ↦ elim s.plan [
              | none ↦ plan_policy_error (codes "plan_policy_plan_invalid")
              | some plan ↦
                  if not (plan.schema_version == codes "1.0") || no_actions plan.actions
                  then plan_policy_error (codes "plan_policy_plan_invalid")
                  else evaluated (record {
                    task_id = task;
                    actor_id = actor;
                    device_id = device;
                    policy_ref = ref;
                    plan = plan;
                  })
            ]
          ]
        ]
      ]
    ]

-- `_validate_snapshot` on the resolver's answer.
unfoldable pub validate_snapshot : PolicyTask → Answer PolicySnapshot → Evaluated PolicySnapshot
validate_snapshot t unavailable = plan_policy_error (codes "policy_snapshot_unavailable")
validate_snapshot t malformed = plan_policy_error (codes "policy_snapshot_invalid")
validate_snapshot t (answered s) =
    if not (valid_snapshot s)
    then plan_policy_error (codes "policy_snapshot_invalid")
    else if s.reference_id == t.policy_ref
        && (s.actor_id == t.actor_id && s.device_id == t.device_id)
    then evaluated s
    else plan_policy_error (codes "policy_snapshot_invalid")

-- `_validate_assessment` on the advisor's answer: every action that it names has a decision.
abbrev pub known_target : Decisions → Option Str → Bool
known_target decisions none = true
known_target decisions (some a) = is_some (lookup a decisions)

unfoldable pub validate_assessment :
    Decisions → Answer SecurityAssessment → Evaluated SecurityAssessment
validate_assessment decisions unavailable =
    plan_policy_error (codes "policy_security_analysis_unavailable")
validate_assessment decisions malformed =
    plan_policy_error (codes "policy_security_assessment_invalid")
validate_assessment decisions (answered a) =
    if valid_assessment a && all (λ x. known_target decisions x.action_id) a
    then evaluated a
    else plan_policy_error (codes "policy_security_assessment_invalid")

-- `_workflow_status`
unfoldable pub workflow_status : List PolicyDecision → Str
workflow_status decisions =
    if any (λ x. is_deny x.decision) decisions
    then codes "denied"
    else if any (λ x. is_ask x.decision) decisions
    then codes "awaiting_approval"
    else codes "executing"

-- The advisor, if there is one, sees the plan and the baseline.
abbrev pub Advisor : Type 0
Advisor = Option (PlanDraft → List PolicyDecision → Answer SecurityAssessment)

module _ (decision_id : Str → PolicySnapshot → MutableDecision → List Str → Str) where
  -- The `PolicyDecision` of one action; the digest takes the reason codes in order.
  unfoldable pub projected : Str → PolicySnapshot → MutableDecision → PolicyDecision
  projected task_id s x =
      let reason_codes = sorted str_le x.reason_codes in
      record {
        decision_id = codes "pdc_" ++ decision_id task_id s x reason_codes;
        action_id = x.action.action_id;
        decision = x.decision;
        risk_tier = x.risk_tier;
        reason_codes = reason_codes;
        policy_reference_id = s.reference_id;
        policy_version = s.version;
        grant_reference_id = x.grant_reference_id;
        requires_fresh_approval = is_ask x.decision;
      }

  -- `_project_decisions`: the constructor validates, and a missing decision is a `KeyError`.
  unfoldable pub project_decisions :
      Str → PolicySnapshot → Decisions → List PlanActionDraft → Evaluated (List PolicyDecision)
  unfolding projected
  project_decisions task_id s decisions [] = evaluated []
  project_decisions task_id s decisions (a ∷ actions) =
      let rest = project_decisions task_id s decisions actions in
      elim (lookup a.action_id decisions) [
        | none ↦ key_error
        | some x ↦
            let y : PolicyDecision = record (projected task_id s x) { action_id = a.action_id } in
            if not (validate_decision_contract y) then validation_error else elim rest [
              | plan_policy_error e ↦ plan_policy_error e
              | validation_error ↦ validation_error
              | key_error ↦ key_error
              | evaluated ys ↦ evaluated (y ∷ ys)
            ]
      ]

  -- The end of `evaluatePlanPolicy`: the decisions and the status.
  unfoldable pub finish_evaluation :
      PolicyTask → PolicySnapshot → Decisions → Evaluated (List PolicyDecision × Str)
  finish_evaluation t s decisions = elim (project_decisions t.task_id s decisions t.plan.actions) [
    | plan_policy_error e ↦ plan_policy_error e
    | validation_error ↦ validation_error
    | key_error ↦ key_error
    | evaluated ys ↦ evaluated (ys, workflow_status ys)
  ]

  -- From the baseline on, which the advisor sees.
  unfoldable pub evaluate_advised :
      Advisor → PolicyTask → PolicySnapshot → Decisions → Evaluated (List PolicyDecision × Str)
  unfolding finish_evaluation
  evaluate_advised advisor t s decisions =
      elim (project_decisions t.task_id s decisions t.plan.actions) [
        | plan_policy_error e ↦ plan_policy_error e
        | validation_error ↦ validation_error
        | key_error ↦ key_error
        | evaluated baseline ↦ elim advisor [
          | none ↦ finish_evaluation t s decisions
          | some ask_advisor ↦ elim (validate_assessment decisions (ask_advisor t.plan baseline)) [
            | plan_policy_error e ↦ plan_policy_error e
            | validation_error ↦ validation_error
            | key_error ↦ key_error
            | evaluated a ↦ finish_evaluation t s (apply_security_assessment a decisions)
          ]
        ]
      ]

  -- `evaluatePlanPolicy`
  unfoldable pub evaluate_plan_policy :
      PlanPolicySettings
      → (Str → Str → Str → Answer PolicySnapshot)
      → Advisor
      → PolicyState
      → Evaluated (List PolicyDecision × Str)
  unfolding validate_state validate_snapshot evaluate_advised
  evaluate_plan_policy settings resolve advisor state =
      if not (valid_settings settings)
      then plan_policy_error (codes "plan_policy_settings_incompatible")
      else elim (validate_state state) [
        | plan_policy_error e ↦ plan_policy_error e
        | validation_error ↦ validation_error
        | key_error ↦ key_error
        | evaluated t ↦ elim (validate_snapshot t (resolve t.policy_ref t.actor_id t.device_id)) [
          | plan_policy_error e ↦ plan_policy_error e
          | validation_error ↦ validation_error
          | key_error ↦ key_error
          | evaluated s ↦
              evaluate_advised advisor t s
                (apply_aggregate_rules s (baseline_decisions s t.plan.actions []))
        ]
      ]

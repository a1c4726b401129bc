-- ===== src/Graph/Policy/Tests.antt =====
-- A plan of two actions under a policy with an aggregate rule, and the theorems of
-- backend/src/jarvis/graph/policy.py there.
use sriee.Base.{◌≡◌, refl, false, str_beq, true, none, some, List, [], ◌∷◌}
use sriee.Text.{Str, codes, prefixed, after_prefix, repeated, is_hex, is_alnum, is_safe, is_word}
use sriee.Dict.{insert, lookup}
use sriee.Tasks.Service.{is_task_id}
use sriee.Graph.Patterns.{
  is_principal_id, headed, is_reference_id, is_policy_id, is_version, is_rule_id, is_capability_id,
  is_reason_code, version_from, capability_from,
}
use sriee.Graph.Policy.Executing.{executing_is_free, all_free}
use sriee.Graph.Plan.{PlanActionDraft, PlanDraft}
use sriee.Graph.Policy.Contract.{
  PolicyDecision, valid_snapshot, validate_decision_contract, PolicyDecisionKind, RiskTier,
  PolicyActionRule, PolicySnapshot, SecurityAssessment,
}
use sriee.Graph.Policy.Decide.{
  baseline_decisions, baseline_decision, rule_for, apply_each_rule, sorted, sort_in,
  MutableDecision, Decisions, apply_aggregate_rules, apply_security_assessment,
}
use sriee.Graph.Policy.Evaluate.{
  valid_settings, validate_state, policy_ref_of, texts, validate_snapshot, evaluate_advised,
  project_decisions, projected, finish_evaluation, workflow_status, Answer, answered,
  PlanPolicySettings, PolicyState, Advisor, evaluate_plan_policy,
}
use sriee.Graph.Policy.Tighten.{AllTightened, advice_tightens}
use sriee.Graph.Policy.Heeded.{AllHeeded, advice_heeded}
use sriee.Graph.Policy.Proper.{IsProper, evaluate_plan_policy-IsProper}

abbrev open_id : Str
open_id = codes "act_000000000000000000000001"

abbrev send_id : Str
send_id = codes "act_000000000000000000000002"

abbrev action : Str → Str → PlanActionDraft
action i capability = record {
  action_id = i;
  capability_id = capability;
  capability_version = codes "1.0.0";
  arguments = [];
  dependencies = [];
  timeout_seconds = 30;
}

abbrev plan : PlanDraft
plan = record {
  schema_version = codes "1.0";
  objective = codes "file_task";
  assumptions = [];
  actions = action open_id (codes "file.open") ∷ action send_id (codes "mail.send") ∷ [];
  success_criteria = [];
  warnings = [];
}

abbrev rule : Str → Str → PolicyActionRule
rule i capability = record {
  rule_id = i;
  capability_id = capability;
  capability_version = codes "1.0.0";
  decision = PolicyDecisionKind.allow;
  risk_tier = RiskTier.r1;
  reason_code = codes "low_risk";
  grant_reference_id = none;
}

abbrev snapshot : PolicySnapshot
snapshot = record {
  reference_id = codes "pol_00000001";
  version = codes "1.0.0";
  actor_id = codes "ann";
  device_id = codes "laptop";
  default_decision = PolicyDecisionKind.deny;
  default_risk_tier = RiskTier.r4;
  action_rules =
      rule (codes "prl_00000001") (codes "file.open")
      ∷ rule (codes "prl_00000002") (codes "mail.send")
      ∷ [];
  aggregate_rules =
      (record {
        rule_id = codes "prl_00000003";
        capability_ids = codes "file.open" ∷ codes "mail.send" ∷ [];
        minimum_matches = 2;
        decision = PolicyDecisionKind.ask;
        risk_tier = RiskTier.r2;
        reason_code = codes "exfiltration";
      })
      ∷ [];
}

-- The advisor would allow everything, and deny the mail.
abbrev advice : SecurityAssessment
advice =
    (record {
      action_id = none;
      decision = PolicyDecisionKind.allow;
      risk_tier = RiskTier.r0;
      reason_code = codes "looks_fine";
    })
    ∷ (record {
      action_id = some send_id;
      decision = PolicyDecisionKind.deny;
      risk_tier = RiskTier.r3;
      reason_code = codes "unknown_recipient";
    })
    ∷ []

abbrev allowed : PlanActionDraft → MutableDecision
allowed a = record {
  action = a;
  decision = PolicyDecisionKind.allow;
  risk_tier = RiskTier.r1;
  reason_codes = codes "low_risk" ∷ [];
  grant_reference_id = none;
}

abbrev both_allowed : Decisions
both_allowed =
    (open_id, allowed (action open_id (codes "file.open")))
    ∷ (send_id, allowed (action send_id (codes "mail.send")))
    ∷ []

abbrev settings : PlanPolicySettings
settings = record { resolver_timeout = 5000000; advisor_timeout = 15000000 }

abbrev state : PolicyState
state = record {
  status = some (codes "planning");
  has_plan = true;
  plan = some plan;
  no_decisions = true;
  task_id = some (codes "tsk_00112233445566778899aabbccddeeff");
  actor_id = some (codes "ann");
  device_id = some (codes "laptop");
  context_refs = some (some (codes "pol_00000001") ∷ []);
}

abbrev no_digest : Str → PolicySnapshot → MutableDecision → List Str → Str
no_digest task s x reasons = codes "000000000000000000000000"

abbrev resolve : Str → Str → Str → Answer PolicySnapshot
resolve reference actor device = answered snapshot

abbrev advisor : Advisor
advisor = some (λ p baseline. answered advice)

advice_tightens_example :
    AllTightened both_allowed
      (apply_security_assessment advice (apply_aggregate_rules snapshot both_allowed))
advice_tightens_example = advice_tightens snapshot advice both_allowed

advice_heeded_example : AllHeeded (apply_security_assessment advice both_allowed) advice
advice_heeded_example = advice_heeded advice both_allowed

evaluate_plan_policy-IsProper_example :
    IsProper (some plan) (evaluate_plan_policy no_digest settings resolve advisor state)
evaluate_plan_policy-IsProper_example =
    evaluate_plan_policy-IsProper no_digest settings resolve advisor state

-- The same actions without the aggregate rule, and without an advisor.
abbrev plain_snapshot : PolicySnapshot
plain_snapshot = record snapshot { aggregate_rules = [] }

abbrev resolve_plain : Str → Str → Str → Answer PolicySnapshot
resolve_plain reference actor device = answered plain_snapshot

abbrev allow_decision : Str → PolicyDecision
allow_decision i = record {
  decision_id = codes "pdc_000000000000000000000000";
  action_id = i;
  decision = PolicyDecisionKind.allow;
  risk_tier = RiskTier.r1;
  reason_codes = codes "low_risk" ∷ [];
  policy_reference_id = codes "pol_00000001";
  policy_version = codes "1.0.0";
  grant_reference_id = none;
  requires_fresh_approval = false;
}

runs : Unit {0}
unfolding evaluate_plan_policy valid_settings validate_state is_task_id prefixed after_prefix
    repeated is_hex is_principal_id headed is_alnum is_safe is_word policy_ref_of texts
    is_reference_id str_beq validate_snapshot valid_snapshot is_policy_id is_version version_from
    is_rule_id is_capability_id capability_from is_reason_code baseline_decisions baseline_decision
    rule_for insert lookup apply_aggregate_rules apply_each_rule sorted sort_in evaluate_advised
    project_decisions projected validate_decision_contract finish_evaluation workflow_status
runs = tt

executing_is_free_example : all_free (allow_decision open_id ∷ allow_decision send_id ∷ []) ≡ true
unfolding runs
executing_is_free_example =
    executing_is_free no_digest settings resolve_plain none state
      (allow_decision open_id ∷ allow_decision send_id ∷ []) refl

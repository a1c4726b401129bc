-- ===== src/Graph/Policy/Decide.antt =====
-- How the decisions come about in backend/src/jarvis/graph/policy.py: the baseline of each action, and
-- what tightens it.
use sriee.Base.{
  ℕ, suc, Bool, true, false, not, ◌&&◌, Option, none, some, List, [], ◌∷◌, ◌++◌, ◌==◌, leb, ltb,
  str_eq, if◌then◌else◌,
}
use sriee.Text.{Str, codes}
use sriee.Dict.{Dict, insert}
use sriee.Graph.Plan.{PlanActionDraft}
use sriee.Graph.Patterns.{str_le}
use sriee.Graph.Policy.Contract.{
  PolicyDecisionKind, RiskTier, decision_rank, risk_rank, is_allow, has, PolicyActionRule,
  PolicyAggregateRule, PolicySnapshot, is_rule_for, SecurityRecommendation, SecurityAssessment,
}

-- `_MutableDecision`
pub record MutableDecision : Type 0 where
  pub action : PlanActionDraft
  pub decision : PolicyDecisionKind
  pub risk_tier : RiskTier
  pub reason_codes : List Str
  pub grant_reference_id : Option Str

-- `_apply_safety_floor`
unfoldable pub apply_safety_floor : PolicyDecisionKind → RiskTier → Option Str → PolicyDecisionKind
apply_safety_floor _ RiskTier.r4 _ = PolicyDecisionKind.deny
apply_safety_floor PolicyDecisionKind.allow RiskTier.r3 _ = PolicyDecisionKind.ask
apply_safety_floor PolicyDecisionKind.allow RiskTier.r2 none = PolicyDecisionKind.ask
apply_safety_floor d _ _ = d

-- `_tighten`
unfoldable pub tighten : PolicyDecisionKind → RiskTier → Str → MutableDecision → MutableDecision
tighten d t reason_code current =
    let tier = if ltb (risk_rank current.risk_tier) (risk_rank t) then t else current.risk_tier in
    let is_stricter = ltb (decision_rank current.decision) (decision_rank d) in
    let decision = if is_stricter then d else current.decision in
    let grant = if is_stricter then none else current.grant_reference_id in
    let floored = apply_safety_floor decision tier grant in
    record {
      action = current.action;
      decision = floored;
      risk_tier = tier;
      reason_codes =
          if has reason_code current.reason_codes
          then current.reason_codes
          else current.reason_codes ++ reason_code ∷ [];
      grant_reference_id = if is_allow floored then grant else none;
    }

-- `rules.get((capability_id, capability_version))`: of two rules with one key the later one stands.
unfoldable pub rule_for : Str → Str → List PolicyActionRule → Option PolicyActionRule
rule_for capability version [] = none
rule_for capability version (x ∷ xs) = elim (rule_for capability version xs) [
  | none ↦ if is_rule_for capability version x then some x else none
  | some y ↦ some y
]

unfoldable pub baseline_decision : PolicySnapshot → PlanActionDraft → MutableDecision
baseline_decision s a = elim (rule_for a.capability_id a.capability_version s.action_rules) [
  | none ↦ record {
    action = a;
    decision = s.default_decision;
    risk_tier = s.default_risk_tier;
    reason_codes = codes "policy_default_deny" ∷ [];
    grant_reference_id = none;
  }
  | some x ↦ record {
    action = a;
    decision = x.decision;
    risk_tier = x.risk_tier;
    reason_codes = x.reason_code ∷ [];
    grant_reference_id = x.grant_reference_id;
  }
]

abbrev pub Decisions : Type 0
Decisions = Dict Str MutableDecision

-- `_baseline_decisions`, from the decisions that the loop has made.
unfoldable pub baseline_decisions : PolicySnapshot → List PlanActionDraft → Decisions → Decisions
baseline_decisions s [] decisions = decisions
baseline_decisions s (a ∷ actions) decisions =
    baseline_decisions s actions (insert a.action_id (baseline_decision s a) decisions)

-- The loops over `decisions.values()`: a write to each decision that a test selects.
unfoldable pub update_where :
    (Str → MutableDecision → Bool) → (MutableDecision → MutableDecision) → Decisions → Decisions
update_where selects write [] = []
update_where selects write ((k, x) ∷ decisions) =
    (k, (if selects k x then write x else x)) ∷ update_where selects write decisions

unfoldable pub count_where : (Str → MutableDecision → Bool) → Decisions → ℕ
count_where selects [] = 0
count_where selects ((k, x) ∷ decisions) =
    let rest = count_where selects decisions in if selects k x then suc rest else rest

abbrev pub matches : PolicyAggregateRule → Str → MutableDecision → Bool
matches rule _ x = has x.action.capability_id rule.capability_ids

unfoldable pub apply_aggregate_rule : PolicyAggregateRule → Decisions → Decisions
apply_aggregate_rule rule decisions =
    if ltb (count_where (matches rule) decisions) rule.minimum_matches
    then decisions
    else update_where (matches rule) (tighten rule.decision rule.risk_tier rule.reason_code)
        decisions

-- `sorted`: stable, by an order on the keys.
module _ {ℓ} {A : Type ℓ} (le : A → A → Bool) where
  unfoldable pub sort_in : A → List A → List A
  sort_in x [] = x ∷ []
  sort_in x (y ∷ ys) = let rest = sort_in x ys in if le x y then x ∷ y ∷ ys else y ∷ rest

  unfoldable pub sorted : List A → List A
  unfolding sort_in
  sorted [] = []
  sorted (x ∷ xs) = sort_in x (sorted xs)

unfoldable pub apply_each_rule : List PolicyAggregateRule → Decisions → Decisions
unfolding apply_aggregate_rule
apply_each_rule [] decisions = decisions
apply_each_rule (x ∷ xs) decisions = apply_each_rule xs (apply_aggregate_rule x decisions)

-- `_apply_aggregate_rules`
unfoldable pub apply_aggregate_rules : PolicySnapshot → Decisions → Decisions
unfolding apply_each_rule
apply_aggregate_rules s decisions =
    apply_each_rule (sorted (λ x y. str_le x.rule_id y.rule_id) s.aggregate_rules) decisions

-- `item.action_id or ""`
abbrev pub target_text : Option Str → Str
target_text none = []
target_text (some a) = a

-- The order of the keys in `_apply_security_assessment`; the values of the two enumerations stand
-- in the order of their ranks.
unfoldable pub recommendation_le : SecurityRecommendation → SecurityRecommendation → Bool
recommendation_le x y =
    let a = target_text x.action_id in
    let b = target_text y.action_id in
    if not (a == b)
    then str_le a b
    else if not (x.reason_code == y.reason_code)
    then str_le x.reason_code y.reason_code
    else if ltb (decision_rank x.decision) (decision_rank y.decision)
    then true
    else if ltb (decision_rank y.decision) (decision_rank x.decision)
    then false
    else leb (risk_rank x.risk_tier) (risk_rank y.risk_tier)

abbrev pub is_target : SecurityRecommendation → Str → Bool
is_target x k = elim x.action_id [ none ↦ true | some a ↦ k == a ]

-- The target that is changed: it is meant, and is weaker in its decision or its risk.
abbrev pub raises : SecurityRecommendation → Str → MutableDecision → Bool
raises x k current =
    is_target x k
    && not (
        leb (decision_rank x.decision) (decision_rank current.decision)
        && leb (risk_rank x.risk_tier) (risk_rank current.risk_tier))

unfoldable pub apply_each_recommendation : List SecurityRecommendation → Decisions → Decisions
apply_each_recommendation [] decisions = decisions
apply_each_recommendation (x ∷ xs) decisions =
    apply_each_recommendation xs
      (update_where (raises x) (tighten x.decision x.risk_tier x.reason_code) decisions)

-- `_apply_security_assessment`; that every target is there has been checked before.
unfoldable pub apply_security_assessment : SecurityAssessment → Decisions → Decisions
unfolding apply_each_recommendation
apply_security_assessment recommendations decisions =
    apply_each_recommendation (sorted recommendation_le recommendations) decisions

-- ===== src/Graph/Policy/Contract.antt =====
-- The contracts of backend/src/jarvis/graph/policy.py: its enumerations and records, and the validators
-- that pydantic runs.
use sriee.Base.{
  ℕ, Bool, true, false, not, ◌&&◌, ◌||◌, Option, none, some, List, [], ◌∷◌, ◌++◌, ◌==◌, leb, length,
  map, any, all, str_eq, if◌then◌else◌,
}
use sriee.Text.{Str}
use sriee.Graph.Patterns.{
  is_rule_id, is_capability_id, is_version, is_reason_code, is_grant_id, is_policy_id,
  is_principal_id, is_action_id,
}

pub data PolicyDecisionKind : Type 0 where
  allow ask deny : PolicyDecisionKind

pub data RiskTier : Type 0 where
  r0 r1 r2 r3 r4 : RiskTier

-- `DECISION_RANK` and `RISK_RANK`
abbrev pub decision_rank : PolicyDecisionKind → ℕ
decision_rank PolicyDecisionKind.allow = 0
decision_rank PolicyDecisionKind.ask = 1
decision_rank PolicyDecisionKind.deny = 2

abbrev pub risk_rank : RiskTier → ℕ
risk_rank RiskTier.r0 = 0
risk_rank RiskTier.r1 = 1
risk_rank RiskTier.r2 = 2
risk_rank RiskTier.r3 = 3
risk_rank RiskTier.r4 = 4

-- The tests `is PolicyDecisionKind.ALLOW` and so on.
abbrev pub is_allow : PolicyDecisionKind → Bool
is_allow PolicyDecisionKind.allow = true
is_allow _ = false

abbrev pub is_ask : PolicyDecisionKind → Bool
is_ask PolicyDecisionKind.ask = true
is_ask _ = false

abbrev pub is_deny : PolicyDecisionKind → Bool
is_deny PolicyDecisionKind.deny = true
is_deny _ = false

abbrev pub is_r2 : RiskTier → Bool
is_r2 RiskTier.r2 = true
is_r2 _ = false

abbrev pub is_r3 : RiskTier → Bool
is_r3 RiskTier.r3 = true
is_r3 _ = false

abbrev pub is_r4 : RiskTier → Bool
is_r4 RiskTier.r4 = true
is_r4 _ = false

abbrev pub is_low : RiskTier → Bool
is_low RiskTier.r0 = true
is_low RiskTier.r1 = true
is_low _ = false

abbrev pub granted : Option Str → Bool
granted none = false
granted (some _) = true

-- `item in items`, and `len(items) == len(set(items))`
abbrev pub has : Str → List Str → Bool
has x xs = any (λ y. y == x) xs

abbrev pub distinct : List Str → Bool
distinct [] = true
distinct (x ∷ xs) = not (has x xs) && distinct xs

abbrev valid_grant : Option Str → Bool
valid_grant none = true
valid_grant (some g) = is_grant_id g

pub record PolicyActionRule : Type 0 where
  pub rule_id : Str
  pub capability_id : Str
  pub capability_version : Str
  pub decision : PolicyDecisionKind
  pub risk_tier : RiskTier
  pub reason_code : Str
  pub grant_reference_id : Option Str

-- `PolicyActionRule.validate_safety_floor`
abbrev pub valid_floor : PolicyDecisionKind → RiskTier → Option Str → Bool
valid_floor d t g =
    not (is_r4 t && not (is_deny d))
    && (not (is_r3 t && (is_allow d || granted g))
        && (not (is_r2 t && (is_allow d && not (granted g)))
            && not (not (is_allow d) && granted g)))

abbrev pub valid_action_rule : PolicyActionRule → Bool
valid_action_rule x =
    (is_rule_id x.rule_id && (is_capability_id x.capability_id && is_version x.capability_version))
    && ((is_reason_code x.reason_code && valid_grant x.grant_reference_id)
        && valid_floor x.decision x.risk_tier x.grant_reference_id)

pub record PolicyAggregateRule : Type 0 where
  pub rule_id : Str
  pub capability_ids : List Str
  pub minimum_matches : ℕ
  pub decision : PolicyDecisionKind
  pub risk_tier : RiskTier
  pub reason_code : Str

-- The field constraints and `validate_aggregate_rule`.
abbrev pub valid_aggregate_rule : PolicyAggregateRule → Bool
valid_aggregate_rule x =
    (is_rule_id x.rule_id && (leb 1 (length x.capability_ids) && leb (length x.capability_ids) 16))
    && ((leb 2 x.minimum_matches && leb x.minimum_matches 8)
        && (is_reason_code x.reason_code
            && ((distinct x.capability_ids && all is_capability_id x.capability_ids)
                && (not (is_allow x.decision)
                    && (not (is_low x.risk_tier)
                        && not (is_r4 x.risk_tier && not (is_deny x.decision)))))))

pub record PolicySnapshot : Type 0 where
  pub reference_id : Str
  pub version : Str
  pub actor_id : Str
  pub device_id : Str
  pub default_decision : PolicyDecisionKind
  pub default_risk_tier : RiskTier
  pub action_rules : List PolicyActionRule
  pub aggregate_rules : List PolicyAggregateRule

-- The rule is for this capability in this version.
abbrev pub is_rule_for : Str → Str → PolicyActionRule → Bool
is_rule_for capability version x = x.capability_id == capability && x.capability_version == version

abbrev distinct_keys : List PolicyActionRule → Bool
distinct_keys [] = true
distinct_keys (x ∷ xs) =
    not (any (is_rule_for x.capability_id x.capability_version) xs) && distinct_keys xs

-- The field constraints and `validate_deny_by_default`.
unfoldable pub valid_snapshot : PolicySnapshot → Bool
valid_snapshot s =
    (is_policy_id s.reference_id
      && (is_version s.version && (is_principal_id s.actor_id && is_principal_id s.device_id)))
    && ((all valid_action_rule s.action_rules && all valid_aggregate_rule s.aggregate_rules)
        && ((leb (length s.action_rules) 64 && leb (length s.aggregate_rules) 16)
            && ((is_deny s.default_decision && is_r4 s.default_risk_tier)
                && (distinct_keys s.action_rules
                    && distinct (
                        map (λ x. x.rule_id) s.action_rules
                        ++ map (λ x. x.rule_id) s.aggregate_rules)))))

pub record PolicyDecision : Type 0 where
  pub decision_id : Str
  pub action_id : Str
  pub decision : PolicyDecisionKind
  pub risk_tier : RiskTier
  pub reason_codes : List Str
  pub policy_reference_id : Str
  pub policy_version : Str
  pub grant_reference_id : Option Str
  pub requires_fresh_approval : Bool

-- The part of `validate_decision_contract` about the decision, the risk and the grant.
abbrev pub valid_verdict : PolicyDecisionKind → RiskTier → Option Str → Bool
valid_verdict d t g =
    not (not (is_allow d) && granted g)
    && (not (is_r2 t && (is_allow d && not (granted g)))
        && (not (is_r3 t && is_allow d) && not (is_r4 t && not (is_deny d))))

-- The bounds of `reason_codes` and `PolicyDecision.validate_decision_contract`. The other fields are
-- copies of fields that have been validated, and the digest.
unfoldable pub validate_decision_contract : PolicyDecision → Bool
validate_decision_contract x =
    (leb 1 (length x.reason_codes) && leb (length x.reason_codes) 40)
    && ((distinct x.reason_codes && all is_reason_code x.reason_codes)
        && ((if is_ask x.decision then x.requires_fresh_approval else not x.requires_fresh_approval)
            && valid_verdict x.decision x.risk_tier x.grant_reference_id))

pub record SecurityRecommendation : Type 0 where
  pub action_id : Option Str
  pub decision : PolicyDecisionKind
  pub risk_tier : RiskTier
  pub reason_code : Str

-- `SecurityAssessment` is its recommendations.
abbrev pub SecurityAssessment : Type 0
SecurityAssessment = List SecurityRecommendation

abbrev pub valid_target : Option Str → Bool
valid_target none = true
valid_target (some a) = is_action_id a

-- The field constraints of `SecurityRecommendation` and `SecurityAssessment`.
unfoldable pub valid_assessment : SecurityAssessment → Bool
valid_assessment recommendations =
    leb (length recommendations) 16
    && all (λ x. valid_target x.action_id && is_reason_code x.reason_code) recommendations

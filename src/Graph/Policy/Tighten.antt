-- ===== src/Graph/Policy/Tighten.antt =====
-- Decisions only become stricter (backend/src/jarvis/graph/policy.py).
use sriee.Base.{
  ◌≤◌, ◌≡◌, refl, Bool, Option, none, List, [], ◌∷◌, arith, ltb, if◌then◌else◌, if_intro, ◌⊎◌, inl,
  inr, str_eq, ◌∙◌,
}
use sriee.Text.{Str}
use sriee.Graph.Patterns.{str_le}
use sriee.Graph.Policy.Contract.{
  PolicyDecisionKind, RiskTier, decision_rank, risk_rank, is_allow, PolicySnapshot,
  PolicyAggregateRule, SecurityRecommendation, SecurityAssessment,
}
use sriee.Graph.Policy.Decide.{
  MutableDecision, Decisions, apply_safety_floor, tighten, update_where, apply_aggregate_rule,
  apply_each_rule, apply_aggregate_rules, apply_each_recommendation, apply_security_assessment,
  sorted, matches, raises, recommendation_le, count_where,
}

-- `y` is `x` or stricter: the decision and the risk are as high or higher, and no grant is new.
pub record Tightened (x y : MutableDecision) : Type 0 where
  pub action : y.action ≡ x.action
  pub decision : decision_rank x.decision ≤ decision_rank y.decision
  pub risk : risk_rank x.risk_tier ≤ risk_rank y.risk_tier
  pub grant : (y.grant_reference_id ≡ none) ⊎ (y.grant_reference_id ≡ x.grant_reference_id)

floor_rank :
    (d : PolicyDecisionKind) (t : RiskTier) (g : Option Str)
    → decision_rank d ≤ decision_rank (apply_safety_floor d t g)
unfolding apply_safety_floor
floor_rank PolicyDecisionKind.allow t g = omega arith
floor_rank PolicyDecisionKind.ask RiskTier.r0 g = omega arith
floor_rank PolicyDecisionKind.ask RiskTier.r1 g = omega arith
floor_rank PolicyDecisionKind.ask RiskTier.r2 g = omega arith
floor_rank PolicyDecisionKind.ask RiskTier.r3 g = omega arith
floor_rank PolicyDecisionKind.ask RiskTier.r4 g = omega arith
floor_rank PolicyDecisionKind.deny RiskTier.r0 g = omega arith
floor_rank PolicyDecisionKind.deny RiskTier.r1 g = omega arith
floor_rank PolicyDecisionKind.deny RiskTier.r2 g = omega arith
floor_rank PolicyDecisionKind.deny RiskTier.r3 g = omega arith
floor_rank PolicyDecisionKind.deny RiskTier.r4 g = omega arith

-- A tightened decision is as strict as it was, and as strict as it was to become.
pub tighten-ranks :
    (d : PolicyDecisionKind) (t : RiskTier) (c : Str) (x : MutableDecision)
    → let y = tighten d t c x in
      ((decision_rank x.decision ≤ decision_rank y.decision)
        × (decision_rank d ≤ decision_rank y.decision))
      × ((risk_rank x.risk_tier ≤ risk_rank y.risk_tier) × (risk_rank t ≤ risk_rank y.risk_tier))
unfolding tighten
tighten-ranks d t c x =
    let tier = if ltb (risk_rank x.risk_tier) (risk_rank t) then t else x.risk_tier in
    let raised = ltb (decision_rank x.decision) (decision_rank d) in
    let f =
      floor_rank (if raised then d else x.decision) tier
        (if raised then none else x.grant_reference_id) in
    (ground (arith, f), ground arith)

pub tighten-Tightened :
    (d : PolicyDecisionKind) (t : RiskTier) (c : Str) (x : MutableDecision)
    → Tightened x (tighten d t c x)
unfolding tighten
tighten-Tightened d t c x = record {
  action = refl;
  decision = (tighten-ranks d t c x).0.0;
  risk = (tighten-ranks d t c x).1.0;
  grant =
      let raised = ltb (decision_rank x.decision) (decision_rank d) in
      if_intro (λ (g : Option Str). (g ≡ none) ⊎ (g ≡ x.grant_reference_id))
        (is_allow (tighten d t c x).decision)
        (λ h.
          if_intro (λ (g : Option Str). (g ≡ none) ⊎ (g ≡ x.grant_reference_id)) raised
            (λ z. inl refl) (λ z. inr refl))
        (λ h. inl refl);
}

pub Tightened-refl : (x : MutableDecision) → Tightened x x
Tightened-refl x = record {
  action = refl;
  decision = omega arith;
  risk = omega arith;
  grant = inr refl;
}

pub Tightened-trans : {x y z : MutableDecision} → Tightened x y → Tightened y z → Tightened x z
Tightened-trans {x} {y} {z} p q = record {
  action = q.action ∙ p.action;
  decision = omega (arith, p.decision, q.decision);
  risk = omega (arith, p.risk, q.risk);
  grant = elim q.grant [
    | inl gone ↦ inl gone
    | inr same ↦ elim p.grant [ inl gone ↦ inl (same ∙ gone) | inr old ↦ inr (same ∙ old) ]
  ];
}

-- The same of the decisions of a plan, under the same keys.
pub data AllTightened : Decisions → Decisions → Type 0 where
  both_empty : AllTightened [] []
  each :
      {k : Str} {x y : MutableDecision} {ds es : Decisions}
      → Tightened x y
      → AllTightened ds es
      → AllTightened ((k, x) ∷ ds) ((k, y) ∷ es)

pub AllTightened-refl : (ds : Decisions) → AllTightened ds ds
AllTightened-refl [] = both_empty
AllTightened-refl ((k, x) ∷ ds) = each (Tightened-refl x) (AllTightened-refl ds)

pub AllTightened-trans :
    {a b c : Decisions} → AllTightened a b → AllTightened b c → AllTightened a c
AllTightened-trans both_empty both_empty = both_empty
AllTightened-trans (each p ps) (each q qs) = each (Tightened-trans p q) (AllTightened-trans ps qs)

pub update_where-AllTightened :
    (selects : Str → MutableDecision → Bool) (d : PolicyDecisionKind) (t : RiskTier) (c : Str)
    (ds : Decisions)
    → AllTightened ds (update_where selects (tighten d t c) ds)
unfolding update_where
update_where-AllTightened selects d t c [] = both_empty
update_where-AllTightened selects d t c ((k, x) ∷ ds) =
    each
      (if_intro (Tightened x) (selects k x) (λ hit. tighten-Tightened d t c x)
        (λ miss. Tightened-refl x))
      (update_where-AllTightened selects d t c ds)

apply_each_rule-AllTightened :
    (rules : List PolicyAggregateRule) (ds : Decisions) → AllTightened ds (apply_each_rule rules ds)
unfolding apply_each_rule apply_aggregate_rule
apply_each_rule-AllTightened [] ds = AllTightened-refl ds
apply_each_rule-AllTightened (x ∷ xs) ds =
    AllTightened-trans
      (if_intro (AllTightened ds) (ltb (count_where (matches x) ds) x.minimum_matches)
        (λ few. AllTightened-refl ds)
        (λ enough. update_where-AllTightened (matches x) x.decision x.risk_tier x.reason_code ds))
      (apply_each_rule-AllTightened xs (apply_aggregate_rule x ds))

pub apply_each_recommendation-AllTightened :
    (xs : List SecurityRecommendation) (ds : Decisions)
    → AllTightened ds (apply_each_recommendation xs ds)
unfolding apply_each_recommendation
apply_each_recommendation-AllTightened [] ds = AllTightened-refl ds
apply_each_recommendation-AllTightened (x ∷ xs) ds =
    AllTightened-trans
      (update_where-AllTightened (raises x) x.decision x.risk_tier x.reason_code ds)
      (apply_each_recommendation-AllTightened xs
        (update_where (raises x) (tighten x.decision x.risk_tier x.reason_code) ds))

pub apply_aggregate_rules-AllTightened :
    (s : PolicySnapshot) (ds : Decisions) → AllTightened ds (apply_aggregate_rules s ds)
unfolding apply_aggregate_rules
apply_aggregate_rules-AllTightened s ds =
    apply_each_rule-AllTightened (sorted (λ x y. str_le x.rule_id y.rule_id) s.aggregate_rules) ds

pub apply_security_assessment-AllTightened :
    (a : SecurityAssessment) (ds : Decisions) → AllTightened ds (apply_security_assessment a ds)
unfolding apply_security_assessment
apply_security_assessment-AllTightened a ds =
    apply_each_recommendation-AllTightened (sorted recommendation_le a) ds

-- Neither the aggregate rules nor the advice, whatever they are, make a decision weaker: each action
-- keeps its place, its decision and its risk are as high or higher, and no grant is new.
pub advice_tightens :
    (s : PolicySnapshot) (a : SecurityAssessment) (ds : Decisions)
    → AllTightened ds (apply_security_assessment a (apply_aggregate_rules s ds))
advice_tightens s a ds =
    AllTightened-trans (apply_aggregate_rules-AllTightened s ds)
      (apply_security_assessment-AllTightened a (apply_aggregate_rules s ds))

-- ===== src/Graph/Policy/Executing.antt =====
-- When a plan may be executed at once (backend/src/jarvis/graph/policy.py).
use sriee.Base.{
  ◌≡◌, refl, Bool, true, false, ◌&&◌, ◌||◌, Option, none, some, List, [], ◌∷◌, arith, any, all, sym,
}
use sriee.Text.{Str, codes}
use sriee.Graph.Plan.{PlanDraft}
use sriee.Graph.Policy.Contract.{
  PolicyDecisionKind, RiskTier, is_allow, is_ask, is_deny, is_low, is_r2, granted, valid_verdict,
  PolicyDecision, PolicySnapshot, validate_decision_contract,
}
use sriee.Graph.Policy.Decide.{MutableDecision}
use sriee.Graph.Policy.Evaluate.{
  Evaluated, evaluated, Answer, PlanPolicySettings, PolicyState, Advisor, workflow_status,
  evaluate_plan_policy,
}
use sriee.Graph.Policy.Proper.{IsProper, refusal, verdicts, evaluate_plan_policy-IsProper}

-- An action that needs nobody's consent: it is allowed, and its risk is low, or of the third tier
-- with a grant.
abbrev pub is_free : PolicyDecisionKind → RiskTier → Option Str → Bool
is_free d t g = is_allow d && (is_low t || (is_r2 t && granted g))

verdict-free :
    (d : PolicyDecisionKind) (t : RiskTier) (g : Option Str)
    → is_ask d ≡ false
    → is_deny d ≡ false
    → valid_verdict d t g ≡ true
    → is_free d t g ≡ true
verdict-free PolicyDecisionKind.ask t g a b v = cc
verdict-free PolicyDecisionKind.deny t g a b v = cc
verdict-free PolicyDecisionKind.allow RiskTier.r0 g a b v = refl
verdict-free PolicyDecisionKind.allow RiskTier.r1 g a b v = refl
verdict-free PolicyDecisionKind.allow RiskTier.r2 none a b v = cc
verdict-free PolicyDecisionKind.allow RiskTier.r2 (some x) a b v = refl
verdict-free PolicyDecisionKind.allow RiskTier.r3 g a b v = ground arith
verdict-free PolicyDecisionKind.allow RiskTier.r4 g a b v = ground arith

abbrev pub all_free : List PolicyDecision → Bool
all_free ys = all (λ (y : PolicyDecision). is_free y.decision y.risk_tier y.grant_reference_id) ys

all-free :
    (ys : List PolicyDecision)
    → any (λ (y : PolicyDecision). is_ask y.decision) ys ≡ false
    → any (λ (y : PolicyDecision). is_deny y.decision) ys ≡ false
    → all validate_decision_contract ys ≡ true
    → all_free ys ≡ true
unfolding validate_decision_contract
all-free [] a b v = refl
all-free (y ∷ ys) a b v = ground (
  arith,
  verdict-free y.decision y.risk_tier y.grant_reference_id (ground arith) (ground arith)
      (ground arith),
  all-free ys (ground arith) (ground arith) (ground arith),
)

workflow_status-executing :
    (ys : List PolicyDecision)
    → workflow_status ys ≡ codes "executing"
    → (any (λ (y : PolicyDecision). is_ask y.decision) ys ≡ false)
      × (any (λ (y : PolicyDecision). is_deny y.decision) ys ≡ false)
unfolding workflow_status
workflow_status-executing ys h = ground arith

IsProper-free :
    {plan : Option PlanDraft} (e : Evaluated (List PolicyDecision × Str)) (ys : List PolicyDecision)
    → IsProper plan e
    → e ≡ evaluated (ys, codes "executing")
    → all_free ys ≡ true
IsProper-free e ys (refusal c) h = cc
IsProper-free e ys (verdicts {ys = zs} found valid named) h =
    let same : zs ≡ ys = cc in
    let status : workflow_status zs ≡ codes "executing" = cc in
    let w = workflow_status-executing zs status in rw (sym same) (all-free zs w.0 w.1 valid)

-- If an evaluation lets the plan be executed at once, then every decision allows its action, and none
-- is of a high risk: the tier is R0 or R1, or R2 under a scoped grant.
pub executing_is_free :
    (decision_id : Str → PolicySnapshot → MutableDecision → List Str → Str)
    (settings : PlanPolicySettings) (resolve : Str → Str → Str → Answer PolicySnapshot)
    (advisor : Advisor) (state : PolicyState) (ys : List PolicyDecision)
    → evaluate_plan_policy decision_id settings resolve advisor state
      ≡ evaluated (ys, codes "executing")
    → all_free ys ≡ true
executing_is_free decision_id settings resolve advisor state ys =
    IsProper-free (evaluate_plan_policy decision_id settings resolve advisor state) ys
      (evaluate_plan_policy-IsProper decision_id settings resolve advisor state)

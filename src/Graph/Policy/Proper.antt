-- ===== src/Graph/Policy/Proper.antt =====
-- The evaluation ends as it is documented to (backend/src/jarvis/graph/policy.py).
use sriee.Base.{
  ℕ, ◌≤◌, ◌≡◌, true, not, ◌&&◌, ◌||◌, Option, none, some, List, [], arith, length, all, map,
  if_intro, option_intro, str_eq, ◌==◌,
}
use sriee.Text.{Str, codes}
use sriee.Tasks.Service.{is_task_id}
use sriee.Graph.Plan.{PlanActionDraft, PlanDraft}
use sriee.Graph.Patterns.{is_principal_id, is_reason_code}
use sriee.Graph.Policy.Contract.{
  valid_snapshot, PolicySnapshot, PolicyDecision, SecurityRecommendation, SecurityAssessment,
  valid_assessment, validate_decision_contract,
}
use sriee.Graph.Policy.Decide.{
  MutableDecision, Decisions, baseline_decisions, apply_aggregate_rules, apply_security_assessment,
}
use sriee.Graph.Policy.Evaluate.{
  Evaluated, plan_policy_error, validation_error, key_error, evaluated, Answer, unavailable,
  malformed, answered, PlanPolicySettings, PolicyState, PolicyTask, valid_settings, validate_state,
  validate_snapshot, validate_assessment, known_target, workflow_status, finish_evaluation,
  evaluate_advised, evaluate_plan_policy, Advisor, is_planning, checked, policy_ref_of, no_actions,
}
use sriee.Graph.Policy.Tighten.{
  apply_aggregate_rules-AllTightened, apply_security_assessment-AllTightened,
}
use sriee.Graph.Policy.Sound.{AllSound, empty_sound, baseline_decisions-AllSound}
use sriee.Graph.Policy.Projection.{
  covers, covers-AllTightened, baseline_decisions-covers, safe_reasons, project_decisions-succeeds,
  apply_security_assessment-AllSound, apply_aggregate_rules-AllSound,
}

-- A refusal by `PlanPolicyError`, or a value of which `Q` holds.
data RefusedOr {ℓ κ} {A : Type ℓ} (Q : A → Type κ) : Evaluated A → Type (ℓ ⊔ κ) where
  refused : (e : Str) → RefusedOr Q (plan_policy_error e)
  accepted : {a : A} → Q a → RefusedOr Q (evaluated a)

-- A documented end: a `PlanPolicyError`, or for each action of the state's plan, in its order, a
-- decision that its contract accepts, with the status that follows from them.
pub data IsProper (plan : Option PlanDraft) : Evaluated (List PolicyDecision × Str) → Type 0 where
  refusal : (e : Str) → IsProper plan (plan_policy_error e)
  verdicts :
      {p : PlanDraft} {ys : List PolicyDecision}
      → plan ≡ some p
      → all validate_decision_contract ys ≡ true
      → map (λ (y : PolicyDecision). y.action_id) ys
        ≡ map (λ (a : PlanActionDraft). a.action_id) p.actions
      → IsProper plan (evaluated (ys, workflow_status ys))

then-IsProper {ℓ κ} :
    {A : Type ℓ} {Q : A → Type κ} {plan : Option PlanDraft} (e : Evaluated A)
    {f : A → Evaluated (List PolicyDecision × Str)}
    → RefusedOr Q e
    → ((a : A) → Q a → IsProper plan (f a))
    → IsProper plan (elim e [
      | plan_policy_error c ↦ plan_policy_error c
      | validation_error ↦ validation_error
      | key_error ↦ key_error
      | evaluated a ↦ f a
    ])
then-IsProper (plan_policy_error c) r k = refusal c
then-IsProper validation_error r k = elim r [ ]
then-IsProper key_error r k = elim r [ ]
then-IsProper (evaluated a) (accepted q) k = k a q

abbrev Accepted : SecurityAssessment → Type 0
Accepted a =
    (length a ≤ 16) × (all (λ (x : SecurityRecommendation). is_reason_code x.reason_code) a ≡ true)

validate_assessment-RefusedOr :
    (ds : Decisions) (x : Answer SecurityAssessment) → RefusedOr Accepted (validate_assessment ds x)
unfolding validate_assessment valid_assessment
validate_assessment-RefusedOr ds unavailable = refused _
validate_assessment-RefusedOr ds malformed = refused _
validate_assessment-RefusedOr ds (answered b) =
    if_intro (RefusedOr Accepted) (valid_assessment b && all (λ x. known_target ds x.action_id) b)
      (λ hit. accepted {a = b} (ground arith, safe_reasons b (ground arith))) (λ miss. refused _)

validate_snapshot-RefusedOr :
    (t : PolicyTask) (x : Answer PolicySnapshot)
    → RefusedOr (λ (s : PolicySnapshot). valid_snapshot s ≡ true) (validate_snapshot t x)
unfolding validate_snapshot
validate_snapshot-RefusedOr t unavailable = refused _
validate_snapshot-RefusedOr t malformed = refused _
validate_snapshot-RefusedOr t (answered s) =
    if_intro (RefusedOr (λ (s : PolicySnapshot). valid_snapshot s ≡ true)) (not (valid_snapshot s))
      (λ invalid. refused _)
      λ valid.
        if_intro (RefusedOr (λ (s : PolicySnapshot). valid_snapshot s ≡ true))
          (s.reference_id == t.policy_ref
            && (s.actor_id == t.actor_id && s.device_id == t.device_id))
          (λ own. accepted (ground arith)) (λ foreign. refused _)

validate_state-RefusedOr :
    (s : PolicyState) → RefusedOr (λ (t : PolicyTask). s.plan ≡ some t.plan) (validate_state s)
unfolding validate_state
validate_state-RefusedOr s =
    if_intro R (not (is_planning s.status && (s.has_plan && s.no_decisions))) (λ h. refused _)
      λ planning.
        option_intro R (checked is_task_id s.task_id) (λ h. refused _)
          λ task h1.
            option_intro R (checked is_principal_id s.actor_id) (λ h. refused _)
              λ actor h2.
                option_intro R (checked is_principal_id s.device_id) (λ h. refused _)
                  λ device h3.
                    option_intro R (policy_ref_of s.context_refs) (λ h. refused _)
                      λ ref h4.
                        option_intro R s.plan (λ h. refused _)
                          λ plan found.
                            if_intro R
                              (not (plan.schema_version == codes "1.0") || no_actions plan.actions)
                              (λ h. refused _) (λ h. accepted found)
  where
    R : Evaluated PolicyTask → Type 0
    R e = RefusedOr (λ (t : PolicyTask). s.plan ≡ some t.plan) e

module _ (decision_id : Str → PolicySnapshot → MutableDecision → List Str → Str) where
  finish_evaluation-IsProper :
      (n : ℕ) (t : PolicyTask) (s : PolicySnapshot) (ds : Decisions) {plan : Option PlanDraft}
      → plan ≡ some t.plan
      → AllSound n ds
      → n ≤ 40
      → covers t.plan.actions ds ≡ true
      → IsProper plan (finish_evaluation decision_id t s ds)
  unfolding finish_evaluation
  finish_evaluation-IsProper n t s ds h v few c =
      let p = project_decisions-succeeds decision_id n t.task_id s ds t.plan.actions v few c in
      rw (p.1, finish_evaluation) (verdicts h p.2 p.3)

  evaluate_advised-IsProper :
      (advisor : Advisor) (t : PolicyTask) (s : PolicySnapshot) (ds : Decisions)
      {plan : Option PlanDraft}
      → plan ≡ some t.plan
      → AllSound 17 ds
      → covers t.plan.actions ds ≡ true
      → IsProper plan (evaluate_advised decision_id advisor t s ds)
  unfolding evaluate_advised
  evaluate_advised-IsProper none t s ds h v c =
      let p =
        project_decisions-succeeds decision_id 17 t.task_id s ds t.plan.actions v (omega arith) c in
      rw (p.1, evaluate_advised) (finish_evaluation-IsProper 17 t s ds h v (omega arith) c)
  evaluate_advised-IsProper (some ask_advisor) t s ds h v c =
      let p =
        project_decisions-succeeds decision_id 17 t.task_id s ds t.plan.actions v (omega arith) c in
      rw (p.1, evaluate_advised)
        (then-IsProper (validate_assessment ds (ask_advisor t.plan p.0))
          (validate_assessment-RefusedOr ds (ask_advisor t.plan p.0))
          (λ a good.
            finish_evaluation-IsProper 33 t s (apply_security_assessment a ds) h
              (apply_security_assessment-AllSound 17 a good v) (omega arith)
              (covers-AllTightened t.plan.actions (apply_security_assessment-AllTightened a ds) c)))

  -- Whatever the resolver and the advisor answer, an evaluation ends with a `PlanPolicyError`, or
  -- with one decision for each action of the plan, in the plan's order, each of which its contract
  -- accepts, and the status that follows from them: it raises no `ValidationError` and no `KeyError`.
  pub evaluate_plan_policy-IsProper :
      (settings : PlanPolicySettings) (resolve : Str → Str → Str → Answer PolicySnapshot)
      (advisor : Advisor) (state : PolicyState)
      → IsProper state.plan (evaluate_plan_policy decision_id settings resolve advisor state)
  unfolding evaluate_plan_policy
  evaluate_plan_policy-IsProper settings resolve advisor state =
      if_intro (IsProper state.plan) (not (valid_settings settings)) (λ bad. refusal _)
        (λ fine. then-IsProper (validate_state state) (validate_state-RefusedOr state) λ t plan.
          then-IsProper (validate_snapshot t (resolve t.policy_ref t.actor_id t.device_id))
            (validate_snapshot-RefusedOr t (resolve t.policy_ref t.actor_id t.device_id))
            λ s valid.
              let baseline = baseline_decisions s t.plan.actions [] in
              evaluate_advised-IsProper advisor t s (apply_aggregate_rules s baseline) plan
                (apply_aggregate_rules-AllSound 1 s valid
                  (baseline_decisions-AllSound s t.plan.actions valid empty_sound))
                (covers-AllTightened t.plan.actions (apply_aggregate_rules-AllTightened s baseline)
                  (baseline_decisions-covers s t.plan.actions [])))

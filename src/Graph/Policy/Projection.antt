-- ===== src/Graph/Policy/Projection.antt =====
-- The projection of sound decisions on every action of a plan succeeds
-- (backend/src/jarvis/graph/policy.py).
use sriee.Base.{
  ℕ, ◌+◌, ◌≤◌, ◌≡◌, refl, Bool, true, ◌&&◌, Option, some, List, [], ◌∷◌, arith, length, all, map,
  if_intro, str_eq, ◌==◌, sym, ap, ◌∙◌, Option-cases, inl, inr,
}
use mathlib.Core.Bool.{false≢true}
use mathlib.Core.Option.{some-injective}
use sriee.Text.{Str}
use sriee.Dict.{insert, lookup, is_some, lookup-insert, lookup-insert_self}
use sriee.Graph.Plan.{PlanActionDraft}
use sriee.Graph.Patterns.{str_le, is_reason_code}
use sriee.Graph.Policy.Contract.{
  valid_snapshot, PolicySnapshot, PolicyDecision, valid_aggregate_rule, PolicyAggregateRule,
  SecurityRecommendation, SecurityAssessment, valid_assessment, valid_target,
  validate_decision_contract,
}
use sriee.Graph.Policy.Decide.{
  MutableDecision, Decisions, baseline_decision, baseline_decisions, apply_aggregate_rules,
  apply_security_assessment, sorted, recommendation_le,
}
use sriee.Graph.Policy.Evaluate.{evaluated, projected, project_decisions}
use sriee.Graph.Policy.Sorting.{all-sorted, length-sorted, distinct-sorted}
use sriee.Graph.Policy.Tighten.{AllTightened, both_empty, each}
use sriee.Graph.Policy.Sound.{
  IsSound, AllSound, empty_sound, and_sound, AllSound-weaken, apply_each_rule-AllSound,
  apply_each_recommendation-AllSound,
}

-- Every action of the plan has a decision.
abbrev pub covers : List PlanActionDraft → Decisions → Bool
covers actions ds = all (λ (a : PlanActionDraft). is_some (lookup a.action_id ds)) actions

lookup-AllTightened :
    (k : Str) {ds es : Decisions}
    → AllTightened ds es
    → is_some (lookup k es) ≡ is_some (lookup k ds)
unfolding lookup
lookup-AllTightened k both_empty = refl
lookup-AllTightened k (each p ps) = ground (arith, lookup-AllTightened k ps)

pub covers-AllTightened :
    (actions : List PlanActionDraft) {ds es : Decisions}
    → AllTightened ds es
    → covers actions ds ≡ true
    → covers actions es ≡ true
covers-AllTightened [] t h = refl
covers-AllTightened (a ∷ actions) t h =
    ground (arith, lookup-AllTightened a.action_id t, covers-AllTightened actions t)

baseline_decisions-keeps :
    (k : Str) (s : PolicySnapshot) (actions : List PlanActionDraft) (ds : Decisions)
    → is_some (lookup k ds) ≡ true
    → is_some (lookup k (baseline_decisions s actions ds)) ≡ true
unfolding baseline_decisions
baseline_decisions-keeps k s [] ds h = h
baseline_decisions-keeps k s (a ∷ actions) ds h =
    baseline_decisions-keeps k s actions (insert a.action_id (baseline_decision s a) ds)
      (ground (arith, lookup-insert a.action_id k (baseline_decision s a) ds))

pub baseline_decisions-covers :
    (s : PolicySnapshot) (actions : List PlanActionDraft) (ds : Decisions)
    → covers actions (baseline_decisions s actions ds) ≡ true
unfolding baseline_decisions
baseline_decisions-covers s [] ds = refl
baseline_decisions-covers s (a ∷ actions) ds =
    let next = insert a.action_id (baseline_decision s a) ds in
    ground (
      arith,
      baseline_decisions-keeps a.action_id s actions next
          (ap is_some (lookup-insert_self a.action_id (baseline_decision s a) ds)),
      baseline_decisions-covers s actions next,
    )

lookup-AllSound :
    (n : ℕ) (k : Str) (x : MutableDecision) {ds : Decisions}
    → AllSound n ds
    → lookup k ds ≡ some x
    → IsSound n x
unfolding lookup
lookup-AllSound n k x empty_sound = λ h. cc
lookup-AllSound n k x (and_sound {k = j} {x = y} {ds = ds} v vs) =
    if_intro (λ (o : Option MutableDecision). o ≡ some x → IsSound n x) (j == k)
      (λ same h. rw (sym (some-injective y x h)) v) (λ other h. lookup-AllSound n k x vs h)

pub safe_reasons :
    (a : SecurityAssessment)
    → valid_assessment a ≡ true
    → all (λ (x : SecurityRecommendation). is_reason_code x.reason_code) a ≡ true
unfolding valid_assessment
safe_reasons a h = weaker a (ground arith)
  where
    weaker :
        (xs : SecurityAssessment)
        → all
            (λ (x : SecurityRecommendation).
              valid_target x.action_id && is_reason_code x.reason_code)
            xs
          ≡ true
        → all (λ (x : SecurityRecommendation). is_reason_code x.reason_code) xs ≡ true
    weaker [] h = refl
    weaker (x ∷ xs) h = ground (arith, weaker xs)

module _ (decision_id : Str → PolicySnapshot → MutableDecision → List Str → Str) where
  projected-contract :
      (n : ℕ) (task_id action_id : Str) (s : PolicySnapshot) (x : MutableDecision)
      → IsSound n x
      → n ≤ 40
      → validate_decision_contract
          (record (projected decision_id task_id s x) { action_id = action_id })
        ≡ true
  unfolding validate_decision_contract projected
  projected-contract n task_id action_id s x v few = ground (
    arith,
    v.verdict,
    v.distinct_reasons,
    v.safe_reasons,
    v.some_reason,
    v.few_reasons,
    length-sorted str_le x.reason_codes,
    distinct-sorted x.reason_codes,
    all-sorted str_le is_reason_code x.reason_codes,
  )

  -- The projection of sound decisions on every action succeeds.
  pub project_decisions-succeeds :
      (n : ℕ) (task_id : Str) (s : PolicySnapshot) (ds : Decisions) (actions : List PlanActionDraft)
      → AllSound n ds
      → n ≤ 40
      → covers actions ds ≡ true
      → (ys : List PolicyDecision) × (project_decisions decision_id task_id s ds actions
          ≡ evaluated ys)
        × (all validate_decision_contract ys ≡ true)
        × (map (λ (y : PolicyDecision). y.action_id) ys
            ≡ map (λ (a : PlanActionDraft). a.action_id) actions)
  unfolding project_decisions
  project_decisions-succeeds n task_id s ds [] v few c = ([], refl, refl, refl)
  project_decisions-succeeds n task_id s ds (a ∷ actions) v few c =
      let rest = project_decisions-succeeds n task_id s ds actions v few (ground arith) in
      elim (Option-cases (lookup a.action_id ds)) [
        | inl missing ↦ absurd (false≢true (ap is_some (sym missing) ∙ ground arith))
        | inr (x, found) ↦
            let y : PolicyDecision = record (projected decision_id task_id s x) {
              action_id = a.action_id;
            } in
            let good =
              projected-contract n task_id a.action_id s x (lookup-AllSound n a.action_id x v found)
                few in
            (
              y ∷ rest.0,
              rw (found, project_decisions, good, rest.1) refl,
              ground (arith, good, rest.2),
              ap (λ (l : List Str). a.action_id ∷ l) rest.3,
            )
      ]

pub apply_security_assessment-AllSound :
    (n : ℕ) (a : SecurityAssessment) {ds : Decisions}
    → (length a ≤ 16)
      × (all (λ (x : SecurityRecommendation). is_reason_code x.reason_code) a ≡ true)
    → AllSound n ds
    → AllSound (16 + n) (apply_security_assessment a ds)
unfolding apply_security_assessment
apply_security_assessment-AllSound n a {ds} h v =
    AllSound-weaken (length (sorted recommendation_le a) + n) (16 + n)
      (omega (arith, h.0, length-sorted recommendation_le a))
      (apply_each_recommendation-AllSound n (sorted recommendation_le a)
        (all-sorted recommendation_le (λ (x : SecurityRecommendation). is_reason_code x.reason_code)
            a
          ∙ h.1)
        v)

pub apply_aggregate_rules-AllSound :
    (n : ℕ) (s : PolicySnapshot) {ds : Decisions}
    → valid_snapshot s ≡ true
    → AllSound n ds
    → AllSound (16 + n) (apply_aggregate_rules s ds)
unfolding apply_aggregate_rules valid_snapshot
apply_aggregate_rules-AllSound n s {ds} h v =
    let le = λ (x y : PolicyAggregateRule). str_le x.rule_id y.rule_id in
    let few : length s.aggregate_rules ≤ 16 = ground arith in
    let valid : all valid_aggregate_rule s.aggregate_rules ≡ true = ground arith in
    AllSound-weaken (length (sorted le s.aggregate_rules) + n) (16 + n)
      (omega (arith, few, length-sorted le s.aggregate_rules))
      (apply_each_rule-AllSound n (sorted le s.aggregate_rules)
        (all-sorted le valid_aggregate_rule s.aggregate_rules ∙ valid) v)

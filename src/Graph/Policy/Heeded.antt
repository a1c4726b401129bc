-- ===== src/Graph/Policy/Heeded.antt =====
-- Advice takes effect (backend/src/jarvis/graph/policy.py).
use sriee.Base.{◌≤◌, ◌≡◌, true, List, [], ◌∷◌, arith, if_intro, str_eq}
use sriee.Text.{Str}
use sriee.Graph.Policy.Contract.{
  decision_rank, risk_rank, SecurityRecommendation, SecurityAssessment,
}
use sriee.Graph.Policy.Decide.{
  MutableDecision, Decisions, tighten, update_where, apply_each_recommendation,
  apply_security_assessment, sorted, sort_in, raises, is_target, recommendation_le,
}
use sriee.Graph.Policy.Tighten.{
  AllTightened, both_empty, each, tighten-ranks, apply_each_recommendation-AllTightened,
}

-- Every decision that a recommendation is about is as strict and as high in risk as it says.
pub data Heeded (x : SecurityRecommendation) : Decisions → Type 0 where
  none_left : Heeded x []
  heeds :
      {k : Str} {y : MutableDecision} {ds : Decisions}
      → (is_target x k ≡ true
          → (decision_rank x.decision ≤ decision_rank y.decision)
            × (risk_rank x.risk_tier ≤ risk_rank y.risk_tier))
      → Heeded x ds
      → Heeded x ((k, y) ∷ ds)

-- Each recommendation of a list is heeded.
pub data AllHeeded (ds : Decisions) : List SecurityRecommendation → Type 0 where
  no_advice : AllHeeded ds []
  with_advice :
      {x : SecurityRecommendation} {xs : List SecurityRecommendation}
      → Heeded x ds
      → AllHeeded ds xs
      → AllHeeded ds (x ∷ xs)

Heeded-AllTightened :
    (x : SecurityRecommendation) {ds es : Decisions}
    → Heeded x ds
    → AllTightened ds es
    → Heeded x es
Heeded-AllTightened x none_left both_empty = none_left
Heeded-AllTightened x (heeds h hs) (each t ts) =
    heeds (λ meant. (omega (arith, (h meant).0, t.decision), omega (arith, (h meant).1, t.risk)))
      (Heeded-AllTightened x hs ts)

update_where-Heeded :
    (x : SecurityRecommendation) (ds : Decisions)
    → Heeded x (update_where (raises x) (tighten x.decision x.risk_tier x.reason_code) ds)
unfolding update_where
update_where-Heeded x [] = none_left
update_where-Heeded x ((k, y) ∷ ds) =
    heeds
      (if_intro
        (λ (z : MutableDecision).
          is_target x k ≡ true
          → (decision_rank x.decision ≤ decision_rank z.decision)
            × (risk_rank x.risk_tier ≤ risk_rank z.risk_tier))
        (raises x k y)
        (λ hit meant.
          let r = tighten-ranks x.decision x.risk_tier x.reason_code y in (r.0.1, r.1.1))
        (λ miss meant. (ground arith, ground arith)))
      (update_where-Heeded x ds)

apply_each_recommendation-AllHeeded :
    (xs : List SecurityRecommendation) (ds : Decisions)
    → AllHeeded (apply_each_recommendation xs ds) xs
unfolding apply_each_recommendation
apply_each_recommendation-AllHeeded [] ds = no_advice
apply_each_recommendation-AllHeeded (x ∷ xs) ds =
    let next = update_where (raises x) (tighten x.decision x.risk_tier x.reason_code) ds in
    with_advice
      (Heeded-AllTightened x (update_where-Heeded x ds)
        (apply_each_recommendation-AllTightened xs next))
      (apply_each_recommendation-AllHeeded xs next)

-- Sorting keeps every recommendation.
AllHeeded-sort_in :
    (x : SecurityRecommendation) (xs : List SecurityRecommendation) {ds : Decisions}
    → AllHeeded ds (sort_in recommendation_le x xs)
    → AllHeeded ds (x ∷ xs)
unfolding sort_in
AllHeeded-sort_in x [] = λ h. h
AllHeeded-sort_in x (y ∷ ys) {ds} =
    if_intro (λ (l : List SecurityRecommendation). AllHeeded ds l → AllHeeded ds (x ∷ y ∷ ys))
      (recommendation_le x y) (λ first h. h)
      (λ later h. elim h [
        | with_advice p ps ↦ elim (AllHeeded-sort_in x ys ps) [
          | with_advice q qs ↦ with_advice q (with_advice p qs)
        ]
      ])

AllHeeded-sorted :
    (xs : List SecurityRecommendation) {ds : Decisions}
    → AllHeeded ds (sorted recommendation_le xs)
    → AllHeeded ds xs
unfolding sorted
AllHeeded-sorted [] h = h
AllHeeded-sorted (x ∷ xs) h = elim (AllHeeded-sort_in x (sorted recommendation_le xs) h) [
  | with_advice p ps ↦ with_advice p (AllHeeded-sorted xs ps)
]

-- Each recommendation of an assessment, in whatever order they come, takes effect: in the end every decision
-- that it is about is at least as strict and as high in risk as it says.
pub advice_heeded :
    (a : SecurityAssessment) (ds : Decisions) → AllHeeded (apply_security_assessment a ds) a
unfolding apply_security_assessment
advice_heeded a ds =
    AllHeeded-sorted a (apply_each_recommendation-AllHeeded (sorted recommendation_le a) ds)

-- ===== src/Graph/Verification/Success.antt =====
-- What a success rests on (backend/src/jarvis/graph/verification.py).
use sriee.Base.{
  ℕ, ◌≡◌, ◌⊎◌, inl, inr, refl, Bool, true, false, not, ◌&&◌, Option, none, some, List, [], ◌∷◌,
  ◌==◌, str_eq, str_beq_iff, nat_beq, length, all, if◌then◌else◌, sym, ap, ◌∙◌, and-true, if-true,
}
use sriee.Text.{Str, codes}
use sriee.Graph.Plan.{PlanDraft}
use sriee.Graph.Policy.Contract.{has}
use sriee.Graph.State.{PriorActionResult, is_subset, unique}
use sriee.Graph.Verification.Contract.{
  CriterionVerdict, VerifiedOutcome, CriterionObservation, OutcomeVerification, valid_observation,
  valid_fields, valid_evidence, fits_probe, is_passed, is_uncertain, is_empty, is_text, is_system,
}
use sriee.Graph.Verification.Judge.{
  classify_outcome, criterion_ids, observed_ids, result_for, valid_semantics, covers_criteria,
  same_sizes, same_judgement, same_outcome, fits_plan, fits_result, fits_criterion, is_none,
  status_for, observation_id, criterion_for,
}

pub or-true : (b rest : Bool) → (if b then true else rest) ≡ true → (b ≡ true) ⊎ (rest ≡ true)
or-true true rest h = inl refl
or-true false rest h = inr h

-- An observation of a list whose criteria include `i`, and what holds of all of the list.
find_observed :
    (p q r : CriterionObservation → Bool) (i : Str) (os : List CriterionObservation)
    → has i (observed_ids os) ≡ true
    → all p os ≡ true
    → all q os ≡ true
    → all r os ≡ true
    → (o : CriterionObservation) × (o.criterion_id ≡ i) × (p o ≡ true) × (q o ≡ true) × (r o ≡ true)
find_observed p q r i [] h a b c = cc
find_observed p q r i (o ∷ os) h a b c =
    let a' = if-true (p o) _ a in
    let b' = if-true (q o) _ b in
    let c' = if-true (r o) _ c in
    elim (or-true (o.criterion_id == i) _ h) [
      | inl e ↦ (o, (str_beq_iff o.criterion_id i).0 e, a'.0, b'.0, c'.0)
      | inr e ↦ find_observed p q r i os e a'.1 b'.1 c'.1
    ]

status_for-succeeded :
    (v : OutcomeVerification)
    → status_for v ≡ codes "succeeded"
    → v.outcome ≡ VerifiedOutcome.succeeded
unfolding status_for
status_for-succeeded v h = go v.recoverable v.outcome h
  where
    go :
        (b : Bool) (k : VerifiedOutcome)
        → (if b then codes "planning" else elim k [
          | VerifiedOutcome.succeeded ↦ codes "succeeded"
          | VerifiedOutcome.partially_succeeded ↦ codes "partially_succeeded"
          | _ ↦ codes "failed"
        ])
          ≡ codes "succeeded"
        → k ≡ VerifiedOutcome.succeeded
    go true k e = cc
    go false VerifiedOutcome.succeeded e = refl
    go false VerifiedOutcome.partially_succeeded e = cc
    go false VerifiedOutcome.failed e = cc
    go false VerifiedOutcome.uncertain e = cc

classify-succeeded :
    (os : List CriterionObservation)
    → classify_outcome os ≡ VerifiedOutcome.succeeded
    → all (λ o. is_passed o.verdict) os ≡ true
unfolding classify_outcome
classify-succeeded os h = go (not (is_empty os)) _ _ _ h
  where
    go :
        (a b c d : Bool)
        → (if a && b
            then VerifiedOutcome.succeeded
            else if c
            then VerifiedOutcome.uncertain
            else if d
            then VerifiedOutcome.partially_succeeded
            else VerifiedOutcome.failed)
          ≡ VerifiedOutcome.succeeded
        → b ≡ true
    go true true c d e = refl
    go true false true d e = cc
    go true false false true e = cc
    go true false false false e = cc
    go false b true d e = cc
    go false b false true e = cc
    go false b false false e = cc

same_outcome-true : (a b : VerifiedOutcome) → same_outcome a b ≡ true → a ≡ b
same_outcome-true VerifiedOutcome.succeeded VerifiedOutcome.succeeded h = refl
same_outcome-true VerifiedOutcome.partially_succeeded VerifiedOutcome.partially_succeeded h = refl
same_outcome-true VerifiedOutcome.failed VerifiedOutcome.failed h = refl
same_outcome-true VerifiedOutcome.uncertain VerifiedOutcome.uncertain h = refl
same_outcome-true a b h = cc

-- What shows that a criterion is met: an observation of it that passed, with evidence, for the receipt of the
-- action's result.
pub record IsMet (results : List PriorActionResult) (i : Str) : Type 0 where
  pub observation : CriterionObservation
  pub result : PriorActionResult
  pub about : observation.criterion_id ≡ i
  pub has_passed : is_passed observation.verdict ≡ true
  pub has_evidence : is_empty observation.evidence_reference_ids ≡ false
  pub has_result : result_for observation.action_id results ≡ some result
  pub same_receipt : is_text observation.receipt_id result.receipt_id ≡ true

is_subset-has :
    (i : Str) (xs ys : List Str) → is_subset xs ys ≡ true → has i xs ≡ true → has i ys ≡ true
is_subset-has i [] ys s h = cc
is_subset-has i (x ∷ xs) ys s h =
    let t = if-true (has x ys) _ s in
    elim (or-true (x == i) _ h) [
      | inl e ↦ ap (λ z. has z ys) (sym ((str_beq_iff x i).0 e)) ∙ t.0
      | inr e ↦ is_subset-has i xs ys t.1 e
    ]

passed-not-uncertain : (k : CriterionVerdict) → is_passed k ≡ true → is_uncertain k ≡ false
passed-not-uncertain CriterionVerdict.passed h = refl
passed-not-uncertain CriterionVerdict.failed h = refl
passed-not-uncertain CriterionVerdict.uncertain h = cc

not-chosen :
    (b c rest other : Bool) → c ≡ false → (if b then c && rest else other) ≡ true → b ≡ false
not-chosen true true rest other e h = cc
not-chosen true false rest other e h = cc
not-chosen false c rest other e h = refl

probed :
    (o : CriterionObservation)
    → is_passed o.verdict ≡ true
    → fits_probe o ≡ true
    → is_system o.probe_id ≡ false
unfolding fits_probe
probed o passes fits =
    not-chosen (is_system o.probe_id) (is_uncertain o.verdict) _ _
      (passed-not-uncertain o.verdict passes) fits

evidenced :
    (k : CriterionVerdict) (evidence : List Str) (reason : Option Str) (retryable : Bool)
    → is_passed k ≡ true
    → valid_evidence k evidence reason retryable ≡ true
    → is_empty evidence ≡ false
unfolding valid_evidence
evidenced CriterionVerdict.passed [] reason retryable passes valid = cc
evidenced CriterionVerdict.failed [] reason retryable passes valid = cc
evidenced CriterionVerdict.uncertain [] reason retryable passes valid = cc
evidenced k (x ∷ xs) reason retryable passes valid = refl

has-result :
    (o : CriterionObservation) (found : Option PriorActionResult)
    → is_system o.probe_id ≡ false
    → fits_result o found ≡ true
    → (r : PriorActionResult) × (found ≡ some r) × (is_text o.receipt_id r.receipt_id ≡ true)
has-result o (some r) made fits = (r, refl, fits)
has-result o none made fits =
    let a = and-true (is_none o.receipt_id) _ fits in
    let b = and-true (is_system o.probe_id) _ a.1 in cc

-- A passed observation that is valid and fits its action's result, if any, is made by a probe for a result.
passed-IsMet :
    (results : List PriorActionResult) (o : CriterionObservation) (i : Str)
    → o.criterion_id ≡ i
    → is_passed o.verdict ≡ true
    → valid_observation o ≡ true
    → fits_result o (result_for o.action_id results) ≡ true
    → IsMet results i
unfolding valid_observation valid_evidence fits_probe
passed-IsMet results o i e passes valid fits =
    let a = and-true (valid_fields o) _ valid in
    let b =
      and-true (valid_evidence o.verdict o.evidence_reference_ids o.reason_code o.retryable)
        (fits_probe o) a.1 in
    let made = probed o passes b.1 in
    let found = has-result o (result_for o.action_id results) made fits in
    record {
      observation = o;
      result = found.0;
      about = e;
      has_passed = passes;
      has_evidence =
          evidenced o.verdict o.evidence_reference_ids o.reason_code o.retryable passes b.0;
      has_result = found.1;
      same_receipt = found.2;
    }

module _ (sha256 : Str → Str) (plan : PlanDraft) (results : List PriorActionResult) where
  fits_plan-fits_result :
      (verification_id : Str) (os : List CriterionObservation)
      → all (fits_plan sha256 plan results verification_id) os ≡ true
      → all (λ o. fits_result o (result_for o.action_id results)) os ≡ true
  unfolding fits_plan
  fits_plan-fits_result verification_id [] h = refl
  fits_plan-fits_result verification_id (o ∷ os) h =
      let a = if-true (fits_plan sha256 plan results verification_id o) _ h in
      let b =
        and-true
          (o.verification_id == verification_id
            && o.observation_id == observation_id sha256 verification_id o.criterion_id)
          _ a.0 in
      let c =
        and-true (fits_criterion o (criterion_for o.criterion_id plan.success_criteria)) _ b.1 in
      rw c.1 (fits_plan-fits_result verification_id os a.1)

  -- Valid observations that an accepted aggregate counts as a success show that every criterion of the plan is met.
  pub accepted_success-IsMet :
      (n : ℕ) (v : OutcomeVerification) (os : List CriterionObservation) (i : Str)
      → valid_semantics sha256 plan results n v os ≡ true
      → all valid_observation os ≡ true
      → status_for v ≡ codes "succeeded"
      → has i (criterion_ids plan) ≡ true
      → IsMet results i
  unfolding valid_semantics covers_criteria same_judgement
  accepted_success-IsMet n v os i accepted valid succeeded wanted =
      let a = and-true (covers_criteria sha256 plan results os) _ accepted in
      let b = and-true (all (fits_plan sha256 plan results v.verification_id) os) _ a.1 in
      let c = and-true (same_sizes sha256 plan results v os) _ b.1 in
      let d = and-true (same_judgement sha256 plan results n v os) _ c.1 in
      let judged = and-true (same_outcome v.outcome (classify_outcome os)) _ d.0 in
      let covered = and-true (nat_beq (length os) (length (unique (criterion_ids plan)))) _ a.0 in
      let both = and-true (is_subset (observed_ids os) (criterion_ids plan)) _ covered.1 in
      let kind =
        sym (same_outcome-true v.outcome (classify_outcome os) judged.0)
        ∙ status_for-succeeded v succeeded in
      let found =
        find_observed (λ o. is_passed o.verdict) valid_observation
          (λ o. fits_result o (result_for o.action_id results)) i os
          (is_subset-has i (criterion_ids plan) (observed_ids os) both.1 wanted)
          (classify-succeeded os kind) valid (fits_plan-fits_result v.verification_id os b.0) in
      passed-IsMet results found.0 i found.1 found.2 found.3 found.4

-- ===== src/Graph/Verification/Judge.antt =====
-- The deterministic part of backend/src/jarvis/graph/verification.py: how observations are aggregated, and what
-- an aggregate has to agree with. SHA-256 is a parameter.
use sriee.Base.{
  ℕ, Bool, true, false, not, ◌&&◌, Option, none, some, List, [], ◌∷◌, ◌++◌, ◌==◌, str_eq, nat_beq,
  leb, ltb, length, map, all, any, keep, take, if◌then◌else◌,
}
use sriee.Text.{Str, codes}
use sriee.Graph.Plan.{PlanDraft, PlanSuccessCriterion}
use sriee.Graph.Node.{Moment}
use sriee.Graph.State.{PriorActionResult, same_set, unique}
use sriee.Graph.Verification.Contract.{
  CriterionVerdict, VerifiedOutcome, CriterionObservation, OutcomeVerification, is_passed,
  is_failed, is_uncertain, is_system, is_text, is_empty,
}

-- `_observation_id`
unfoldable pub observation_id : (Str → Str) → Str → Str → Str
observation_id sha256 verification_id criterion_id =
    codes "obs_" ++ take 24 (sha256 (verification_id ++ codes ":" ++ criterion_id))

-- `_classify_outcome`
unfoldable pub classify_outcome : List CriterionObservation → VerifiedOutcome
classify_outcome os =
    if not (is_empty os) && all (λ o. is_passed o.verdict) os
    then VerifiedOutcome.succeeded
    else if any (λ o. is_uncertain o.verdict) os
    then VerifiedOutcome.uncertain
    else if any (λ o. is_passed o.verdict) os
    then VerifiedOutcome.partially_succeeded
    else VerifiedOutcome.failed

abbrev pub issues : List CriterionObservation → List CriterionObservation
issues os = keep (λ o. not (is_passed o.verdict)) os

-- Whether a further revision of the plan is worth while.
unfoldable pub is_recoverable : ℕ → ℕ → List CriterionObservation → Bool
is_recoverable revision max_revision_count os =
    not (is_empty (issues os))
    && (all (λ o. o.retryable) (issues os) && ltb revision max_revision_count)

-- `sum(p(item) for item in items)`
abbrev pub count : (CriterionVerdict → Bool) → List CriterionObservation → ℕ
count p os = length (keep (λ o. p o.verdict) os)

-- `_aggregate`, before pydantic validates it.
unfoldable pub aggregate :
    Str
    → Str
    → Str
    → ℕ
    → PlanDraft
    → ℕ
    → List CriterionObservation
    → ℕ
    → Moment
    → OutcomeVerification
unfolding classify_outcome is_recoverable
aggregate verification_id task_id thread_id revision plan result_count os max_revision_count
      verified_at =
    record {
      verification_id = verification_id;
      task_id = task_id;
      thread_id = thread_id;
      revision = revision;
      outcome = classify_outcome os;
      recoverable = is_recoverable revision max_revision_count os;
      criterion_count = length os;
      passed_count = count is_passed os;
      failed_count = count is_failed os;
      uncertain_count = count is_uncertain os;
      action_count = length plan.actions;
      action_result_count = result_count;
      verified_at = verified_at;
    }

-- `{criterion.criterion_id: criterion for criterion in plan.success_criteria}`: of two with one key the
-- later one stands.
unfoldable pub criterion_for : Str → List PlanSuccessCriterion → Option PlanSuccessCriterion
criterion_for i [] = none
criterion_for i (c ∷ cs) = elim (criterion_for i cs) [
  | none ↦ if c.criterion_id == i then some c else none
  | some d ↦ some d
]

-- `{item.action_id: item for item in results}`
unfoldable pub result_for : Str → List PriorActionResult → Option PriorActionResult
result_for i [] = none
result_for i (r ∷ rs) = elim (result_for i rs) [
  | none ↦ if r.action_id == i then some r else none
  | some x ↦ some x
]

abbrev pub criterion_ids : PlanDraft → List Str
criterion_ids plan = map (λ (c : PlanSuccessCriterion). c.criterion_id) plan.success_criteria

abbrev pub observed_ids : List CriterionObservation → List Str
observed_ids os = map (λ (o : CriterionObservation). o.criterion_id) os

-- The observation is about the criterion.
abbrev pub fits_criterion : CriterionObservation → Option PlanSuccessCriterion → Bool
fits_criterion o none = false
fits_criterion o (some c) = o.action_id == c.action_id && o.verification_code == c.verification_code

abbrev pub is_none : Option Str → Bool
is_none none = true
is_none (some _) = false

-- The observation is about the action's result, or says that there is none.
abbrev pub fits_result : CriterionObservation → Option PriorActionResult → Bool
fits_result o none =
    is_none o.receipt_id
    && (is_system o.probe_id && is_text o.reason_code (codes "action_result_missing"))
fits_result o (some r) = is_text o.receipt_id r.receipt_id

abbrev pub same_outcome : VerifiedOutcome → VerifiedOutcome → Bool
same_outcome VerifiedOutcome.succeeded VerifiedOutcome.succeeded = true
same_outcome VerifiedOutcome.partially_succeeded VerifiedOutcome.partially_succeeded = true
same_outcome VerifiedOutcome.failed VerifiedOutcome.failed = true
same_outcome VerifiedOutcome.uncertain VerifiedOutcome.uncertain = true
same_outcome _ _ = false

abbrev pub same_flag : Bool → Bool → Bool
same_flag true b = b
same_flag false b = not b

module _ (sha256 : Str → Str) (plan : PlanDraft) (results : List PriorActionResult) where
  -- What is asked of each observation of a verification.
  unfoldable pub fits_plan : Str → CriterionObservation → Bool
  unfolding observation_id criterion_for result_for
  fits_plan verification_id o =
      (o.verification_id == verification_id
        && o.observation_id == observation_id sha256 verification_id o.criterion_id)
      && (fits_criterion o (criterion_for o.criterion_id plan.success_criteria)
          && fits_result o (result_for o.action_id results))

  -- Its parts: one observation of each criterion,
  unfoldable pub covers_criteria : List CriterionObservation → Bool
  covers_criteria os =
      nat_beq (length os) (length (unique (criterion_ids plan)))
      && same_set (observed_ids os) (criterion_ids plan)

  -- the sizes,
  unfoldable pub same_sizes : OutcomeVerification → List CriterionObservation → Bool
  same_sizes v os =
      nat_beq v.criterion_count (length os)
      && (nat_beq v.action_count (length plan.actions)
          && nat_beq v.action_result_count (length results))

  -- the judgement,
  unfoldable pub same_judgement : ℕ → OutcomeVerification → List CriterionObservation → Bool
  unfolding classify_outcome is_recoverable
  same_judgement max_revision_count v os =
      same_outcome v.outcome (classify_outcome os)
      && same_flag v.recoverable (is_recoverable v.revision max_revision_count os)

  -- the counts, and the times.
  unfoldable pub same_counts : OutcomeVerification → List CriterionObservation → Bool
  same_counts v os =
      (nat_beq v.passed_count (count is_passed os)
        && (nat_beq v.failed_count (count is_failed os)
            && nat_beq v.uncertain_count (count is_uncertain os)))
      && all (λ o. leb o.observed_at.at v.verified_at.at) os

  -- The test of `_validate_verification_semantics`.
  unfoldable pub valid_semantics : ℕ → OutcomeVerification → List CriterionObservation → Bool
  unfolding covers_criteria fits_plan same_sizes same_judgement same_counts
  valid_semantics max_revision_count v os =
      covers_criteria os
      && (all (fits_plan v.verification_id) os
          && (same_sizes v os && (same_judgement max_revision_count v os && same_counts v os)))

-- `_status_for`
unfoldable pub status_for : OutcomeVerification → Str
status_for v = if v.recoverable then codes "planning" else elim v.outcome [
  | VerifiedOutcome.succeeded ↦ codes "succeeded"
  | VerifiedOutcome.partially_succeeded ↦ codes "partially_succeeded"
  | _ ↦ codes "failed"
]

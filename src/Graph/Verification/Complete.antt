-- ===== src/Graph/Verification/Complete.antt =====
-- Lemmas on the observations of one run of the criteria (backend/src/jarvis/graph/verification.py): one for
-- each criterion, in the plan's order.
use sriee.Base.{
  ℕ, ◌≡◌, inl, inr, refl, Bool, true, false, not, ◌&&◌, Option, none, some, List, [], ◌∷◌, ◌==◌,
  str_eq, str_beq_iff, nat_beq, nat_beq_iff, length, map, all, if◌then◌else◌, if_intro, Bool-cases,
  sym, ap, ◌∙◌, suc, and_intro, if-true, str_beq_self,
}
use sriee.Text.{Str}
use sriee.Graph.Plan.{PlanDraft, PlanActionDraft, PlanSuccessCriterion}
use sriee.Graph.Node.{Node, key_error, done, ◌>>=◌, Moment, >>=-eq-done, done_inj}
use sriee.Graph.Policy.Contract.{has, distinct}
use sriee.Graph.State.{Identity, PriorActionResult, is_subset, unique}
use sriee.Graph.Verification.Contract.{CriterionObservation, VerifiedOutcome}
use sriee.Graph.Verification.Judge.{
  same_outcome, same_flag, observation_id, criterion_for, result_for, fits_criterion, fits_result,
  fits_plan,
}
use sriee.Graph.Verification.Observe.{Probes, run_criterion}
use sriee.Graph.Verification.Verify.{run_criteria}
use sriee.Graph.Verification.Input.{action_for, paired}
use sriee.Graph.Verification.Aggregate.{
  IsOf, run_criterion-IsOf, AllOf, no_criteria, next_criterion,
}

-- Each criterion with its action.
pub data Paired
    : List PlanSuccessCriterion → List (PlanSuccessCriterion × PlanActionDraft) → Type 0 where
  no_pairs : Paired [] []
  next_pair :
      {c : PlanSuccessCriterion} {a : PlanActionDraft} {cs : List PlanSuccessCriterion}
      {xs : List (PlanSuccessCriterion × PlanActionDraft)}
      → a.action_id ≡ c.action_id
      → Paired cs xs
      → Paired (c ∷ cs) ((c, a) ∷ xs)

action_for-id :
    (i : Str) (actions : List PlanActionDraft) (a : PlanActionDraft)
    → action_for i actions ≡ some a
    → a.action_id ≡ i
action_for-id i [] a h = cc
action_for-id i (b ∷ actions) a h = go (action_for i actions) (action_for-id i actions a) h
  where
    go :
        (o : Option PlanActionDraft)
        → (o ≡ some a → a.action_id ≡ i)
        → (elim o [ none ↦ if b.action_id == i then some b else none | some d ↦ some d ]) ≡ some a
        → a.action_id ≡ i
    go (some d) e k = e k
    go none e k =
        if_intro (λ (m : Option PlanActionDraft). m ≡ some a → a.action_id ≡ i) (b.action_id == i)
          (λ t u. let same : a ≡ b = cc in rw same ((str_beq_iff b.action_id i).0 t)) (λ t u. cc) k

looked-up :
    {B : Type 0} (o : Option PlanActionDraft) (f : PlanActionDraft → Node B) (x : B)
    → ((elim o [ none ↦ key_error | some a ↦ done a ]) >>= f) ≡ done x
    → (a : PlanActionDraft) × (o ≡ some a) × (f a ≡ done x)
looked-up none f x h = cc
looked-up (some a) f x h = (a, refl, h)

pub paired-Paired :
    (actions : List PlanActionDraft) (cs : List PlanSuccessCriterion)
    (xs : List (PlanSuccessCriterion × PlanActionDraft))
    → paired actions cs ≡ done xs
    → Paired cs xs
paired-Paired actions [] xs h = rw (sym (done_inj h)) no_pairs
paired-Paired actions (c ∷ cs) xs h =
    let a = looked-up (action_for c.action_id actions) _ xs h in
    let b = >>=-eq-done (paired actions cs) _ a.2 in
    rw (sym (done_inj b.2))
      (next_pair (action_for-id c.action_id actions a.0 a.1) (paired-Paired actions cs b.0 b.1))

-- Each criterion of a list is found by its identifier.
pub data AllFound (all_criteria : List PlanSuccessCriterion)
    : List PlanSuccessCriterion → Type 0 where
  none_sought : AllFound all_criteria []
  also_found :
      {c : PlanSuccessCriterion} {cs : List PlanSuccessCriterion}
      → criterion_for c.criterion_id all_criteria ≡ some c
      → AllFound all_criteria cs
      → AllFound all_criteria (c ∷ cs)

abbrev pub ids : List PlanSuccessCriterion → List Str
ids cs = map (λ (c : PlanSuccessCriterion). c.criterion_id) cs

or-false : (b rest : Bool) → (if b then true else rest) ≡ false → (b ≡ false) × (rest ≡ false)
or-false true rest h = cc
or-false false rest h = (refl, h)

absent-true : (b rest : Bool) → (not b && rest) ≡ true → (b ≡ false) × (rest ≡ true)
absent-true true rest h = cc
absent-true false rest h = (refl, h)

criterion_for-absent :
    (i : Str) (cs : List PlanSuccessCriterion) → has i (ids cs) ≡ false → criterion_for i cs ≡ none
unfolding criterion_for
criterion_for-absent i [] h = refl
criterion_for-absent i (c ∷ cs) h =
    let a = or-false (c.criterion_id == i) _ h in rw (criterion_for-absent i cs a.1) (rw a.0 refl)

AllFound-more :
    (d : PlanSuccessCriterion) {cs : List PlanSuccessCriterion}
    {some_of : List PlanSuccessCriterion}
    → AllFound cs some_of
    → AllFound (d ∷ cs) some_of
unfolding criterion_for
AllFound-more d none_sought = none_sought
AllFound-more d (also_found p ps) = also_found (rw p refl) (AllFound-more d ps)

pub distinct-AllFound : (cs : List PlanSuccessCriterion) → distinct (ids cs) ≡ true → AllFound cs cs
unfolding criterion_for
distinct-AllFound [] h = none_sought
distinct-AllFound (c ∷ cs) h =
    let a = absent-true (has c.criterion_id (ids cs)) _ h in
    also_found
      (rw (criterion_for-absent c.criterion_id cs a.0) (rw (str_beq_self c.criterion_id) refl))
      (AllFound-more c (distinct-AllFound cs a.1))

pub unique-distinct : (xs : List Str) → distinct xs ≡ true → unique xs ≡ xs
unique-distinct [] h = refl
unique-distinct (x ∷ xs) h =
    let a = absent-true (has x xs) _ h in
    rw a.0 (ap (λ (ys : List Str). x ∷ ys) (unique-distinct xs a.1))

is_subset-more :
    (y : Str) (xs ys : List Str) → is_subset xs ys ≡ true → is_subset xs (y ∷ ys) ≡ true
is_subset-more y [] ys h = refl
is_subset-more y (x ∷ xs) ys h =
    let a = if-true (has x ys) _ h in
    elim (Bool-cases (y == x)) [
      | inl t ↦ rw t (is_subset-more y xs ys a.1)
      | inr t ↦ rw t (rw a.0 (is_subset-more y xs ys a.1))
    ]

pub is_subset_self : (xs : List Str) → is_subset xs xs ≡ true
is_subset_self [] = refl
is_subset_self (x ∷ xs) = rw (str_beq_self x) (is_subset-more x xs xs (is_subset_self xs))

pub nat_beq_self : (n : ℕ) → nat_beq n n ≡ true
nat_beq_self n = (nat_beq_iff n n).1 refl

pub same_outcome_self : (k : VerifiedOutcome) → same_outcome k k ≡ true
same_outcome_self VerifiedOutcome.succeeded = refl
same_outcome_self VerifiedOutcome.partially_succeeded = refl
same_outcome_self VerifiedOutcome.failed = refl
same_outcome_self VerifiedOutcome.uncertain = refl

pub same_flag_self : (b : Bool) → same_flag b b ≡ true
same_flag_self true = refl
same_flag_self false = refl

pub length-map : (cs : List PlanSuccessCriterion) → length (ids cs) ≡ length cs
length-map [] = refl
length-map (c ∷ cs) = ap suc (length-map cs)

module _ (sha256 : Str → Str) (verification_id : Str) where
  pub length-AllOf :
      {results : List PriorActionResult} {cs : List PlanSuccessCriterion}
      {os : List CriterionObservation}
      → AllOf sha256 verification_id results cs os
      → length os ≡ length (ids cs)
  length-AllOf no_criteria = refl
  length-AllOf (next_criterion p ps) = ap suc (length-AllOf ps)

  IsOf-fits_plan :
      (plan : PlanDraft) (results : List PriorActionResult) (c : PlanSuccessCriterion)
      (o : CriterionObservation)
      → IsOf sha256 verification_id c (result_for c.action_id results) o
      → criterion_for c.criterion_id plan.success_criteria ≡ some c
      → fits_plan sha256 plan results verification_id o ≡ true
  unfolding fits_plan
  IsOf-fits_plan plan results c o p found =
      and_intro
        (and_intro ((str_beq_iff _ _).1 p.same_verification) (
          (str_beq_iff _ _).1 (
            p.same_observation
            ∙ ap (observation_id sha256 verification_id) (sym p.same_criterion))))
        (and_intro
          (ap (λ (i : Str). fits_criterion o (criterion_for i plan.success_criteria))
              p.same_criterion
            ∙ ap (fits_criterion o) found
            ∙ and_intro ((str_beq_iff _ _).1 p.same_action) ((str_beq_iff _ _).1 p.same_code))
          (ap (λ (i : Str). fits_result o (result_for i results)) p.same_action ∙ p.same_result))

  pub AllOf-fits_plan :
      (plan : PlanDraft) (results : List PriorActionResult) {cs : List PlanSuccessCriterion}
      {os : List CriterionObservation}
      → AllOf sha256 verification_id results cs os
      → AllFound plan.success_criteria cs
      → all (fits_plan sha256 plan results verification_id) os ≡ true
  AllOf-fits_plan plan results no_criteria none_sought = refl
  AllOf-fits_plan plan results (next_criterion {c} {o} p ps) (also_found f fs) =
      rw (IsOf-fits_plan plan results c o p f) (AllOf-fits_plan plan results ps fs)

  pub run_criteria-AllOf :
      (plan_json : PlanDraft → Str) (probes : Probes) (requested_at : Moment) (i : Identity)
      (results : List PriorActionResult) {cs : List PlanSuccessCriterion}
      {xs : List (PlanSuccessCriterion × PlanActionDraft)} (os : List CriterionObservation)
      → Paired cs xs
      → run_criteria sha256 plan_json probes verification_id requested_at i results xs ≡ done os
      → AllOf sha256 verification_id results cs os
  unfolding run_criteria
  run_criteria-AllOf plan_json probes requested_at i results os no_pairs h =
      rw (sym (done_inj h)) no_criteria
  run_criteria-AllOf plan_json probes requested_at i results os
        (next_pair {c} {a} {xs = rest} same ps) h =
      let x =
        >>=-eq-done
          (run_criterion sha256 verification_id requested_at probes i c a
            (result_for c.action_id results))
          _ h in
      let y =
        >>=-eq-done
          (run_criteria sha256 plan_json probes verification_id requested_at i results rest) _
          x.2 in
      rw (sym (done_inj {x = x.0 ∷ y.0} {y = os} y.2)) (
        next_criterion
          (run_criterion-IsOf sha256 verification_id requested_at c probes i a
            (result_for c.action_id results) x.0 same x.1)
          (run_criteria-AllOf plan_json probes requested_at i results y.0 ps y.1))

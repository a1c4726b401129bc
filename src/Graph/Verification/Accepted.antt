-- ===== src/Graph/Verification/Accepted.antt =====
-- What `verifyOutcome` of backend/src/jarvis/graph/verification.py accepts before it ends.
use sriee.Base.{
  ℕ, ◌≡◌, refl, Bool, true, false, ◌&&◌, Option, none, some, List, [], ◌==◌, str_eq, nat_beq, leb,
  length, all, if◌then◌else◌, if_intro, sym, ap, ◌∙◌, and-true,
}
use sriee.Text.{Str}
use sriee.Graph.Patterns.{is_principal_id}
use sriee.Graph.Plan.{PlanDraft}
use sriee.Graph.Node.{Node, refused, done, >>=-eq-done, require-eq-done, require-done, done_inj}
use sriee.Graph.State.{GraphState, same_set, unique}
use sriee.Graph.Verification.Contract.{
  CriterionObservation, OutcomeVerification, VerificationRecord, valid_observation,
  valid_persistence, valid_verification_record, is_empty,
}
use sriee.Graph.Verification.Judge.{criterion_ids, observed_ids, valid_semantics, status_for}
use sriee.Graph.Verification.Verify.{
  fits_run, settled, replay, checked_record, persistence_request, recorded, verify_loaded,
  verify_outcome, verification_id_of,
}
use sriee.Graph.Verification.Input.{
  Evidence, VerificationService, Verified, VerificationInput, Replay, Loaded, Recorded,
  valid_verification_settings, verification_input, collect, checkpoint_invalid,
}
use sriee.Graph.Verification.Collected.{verification_input-eq-done, collect-valid}

-- What `verifyOutcome` accepted before it ended: an aggregate and its observations.
module _ (sha256 : Str → Str) (plan_json : PlanDraft → Str) where
  pub record IsAccepted (n : ℕ) (x : VerificationInput) (status : Str) : Type 0 where
    pub aggregate : OutcomeVerification
    pub observations : List CriterionObservation
    pub accepted : valid_semantics sha256 x.plan x.results n aggregate observations ≡ true
    pub valid : all valid_observation observations ≡ true
    pub judged : status_for aggregate ≡ status

  settled-IsAccepted :
      (n : ℕ) (i : Str) (x : VerificationInput) (seen : Replay) (v : OutcomeVerification)
      → settled sha256 plan_json n i x seen ≡ done (some v)
      → all valid_observation seen.criteria ≡ true
      → IsAccepted n x (status_for v)
  unfolding fits_run
  settled-IsAccepted n i x seen v h t = go seen.aggregate (is_empty seen.criteria) h
    where
      found :
          (w : OutcomeVerification)
          → fits_run sha256 plan_json n i x seen.criteria w ≡ true
          → w ≡ v
          → IsAccepted n x (status_for v)
      found w e k =
          let a =
            and-true
              ((w.task_id == x.identity.task_id && w.thread_id == x.identity.thread_id)
                && (nat_beq w.revision x.revision
                    && nat_beq w.criterion_count (length (unique (criterion_ids x.plan)))))
              _ e in
          let b =
            and-true
              (nat_beq w.action_count (length x.plan.actions)
                && nat_beq w.action_result_count (length x.results))
              _ a.1 in
          let c =
            and-true
              (nat_beq (length seen.criteria) (length (unique (criterion_ids x.plan)))
                && same_set (observed_ids seen.criteria) (criterion_ids x.plan))
              _ b.1 in
          let d =
            and-true (all (λ (o : CriterionObservation). o.verification_id == i) seen.criteria) _
              c.1 in
          record {
            aggregate = w;
            observations = seen.criteria;
            accepted = d.1;
            valid = t;
            judged = ap status_for k;
          }

      go :
          (o : Option OutcomeVerification) (b : Bool)
          → (elim o [
            | none ↦ if b then done none else refused checkpoint_invalid
            | some w ↦
                if fits_run sha256 plan_json n i x seen.criteria w
                then done (some w)
                else refused checkpoint_invalid
          ])
            ≡ done (some v)
          → IsAccepted n x (status_for v)
      go none true e = cc
      go none false e = cc
      go (some w) b e =
          if_intro
            (λ (m : Node (Option OutcomeVerification)).
              m ≡ done (some v) → IsAccepted n x (status_for v))
            (fits_run sha256 plan_json n i x seen.criteria w) (λ u k. found w u cc) (λ u k. cc) e

  recorded-IsAccepted :
      (n : ℕ) (i : Str) (x : VerificationInput) (answer : Recorded) (out : Verified)
      → recorded sha256 plan_json n i x answer ≡ done out
      → IsAccepted n x out.status
  unfolding recorded checked_record valid_verification_record valid_persistence
  recorded-IsAccepted n i x Recorded.conflicting out h = cc
  recorded-IsAccepted n i x Recorded.unavailable out h = cc
  recorded-IsAccepted n i x Recorded.wrong_type out h = cc
  recorded-IsAccepted n i x (Recorded.stored y) out h =
      let a = >>=-eq-done (checked_record sha256 plan_json n i x y) _ h in
      let b = require-eq-done (valid_verification_record y) _ _ a.1 in
      let c =
        require-eq-done
          (y.request.actor_id == x.identity.actor_id
            && (y.request.device_id == x.identity.device_id
                && y.request.outcome.verification_id == i))
          _ _ b.1 in
      let d =
        require-done
          (valid_semantics sha256 x.plan x.results n y.request.outcome
            y.request.criterion_observations)
          _ y c.1 in
      let u = and-true (valid_persistence y.request) _ b.0 in
      let p =
        and-true (is_principal_id y.request.actor_id && is_principal_id y.request.device_id) _
          u.0 in
      let q =
        and-true
          (leb 1 (length y.request.criterion_observations)
            && leb (length y.request.criterion_observations) 16)
          _ p.1 in
      let r = and-true (all valid_observation y.request.criterion_observations) _ q.1 in
      record {
        aggregate = y.request.outcome;
        observations = y.request.criterion_observations;
        accepted = d.0;
        valid = r.0;
        judged =
            ap (λ (z : VerificationRecord). status_for z.request.outcome) d.1
            ∙ ap (λ (z : Verified). z.status) (done_inj a.2);
      }

  verify_loaded-IsAccepted :
      (service : VerificationService) (i : Str) (x : VerificationInput) (loaded : Loaded)
      (out : Verified)
      → verify_loaded sha256 plan_json service i x loaded ≡ done out
      → IsAccepted service.settings.max_revision_count x out.status
  unfolding verify_loaded
  verify_loaded-IsAccepted service i x Loaded.unavailable out h = cc
  verify_loaded-IsAccepted service i x Loaded.wrong_type out h = cc
  verify_loaded-IsAccepted service i x (Loaded.stored y) out h =
      recorded-IsAccepted service.settings.max_revision_count i x (Recorded.stored y) out h
  verify_loaded-IsAccepted service i x Loaded.absent out h =
      let a = >>=-eq-done (persistence_request sha256 plan_json service i x) _ h in
      recorded-IsAccepted service.settings.max_revision_count i x (service.save a.0) out a.2

  replay-IsAccepted :
      (n : ℕ) (i : Str) (x : VerificationInput) (v : OutcomeVerification)
      → replay sha256 plan_json n i x ≡ done (some v)
      → IsAccepted n x (status_for v)
  unfolding replay
  replay-IsAccepted n i x v h =
      let a = >>=-eq-done (collect i _ x.observations) _ h in
      settled-IsAccepted n i x a.0 v a.2 (collect-valid i x.observations _ a.0 a.1 refl)

  pub verify_outcome-IsAccepted :
      (service : VerificationService) (thread : Str) (s : GraphState)
      (observations : Option (List Evidence)) (out : Verified)
      → verify_outcome sha256 plan_json service thread s observations ≡ done out
      → (x : VerificationInput) × (s.plan ≡ some x.plan)
        × (s.action_results ≡ some x.results)
        × IsAccepted service.settings.max_revision_count x out.status
  unfolding verify_outcome
  verify_outcome-IsAccepted service thread s observations out h =
      let n = service.settings.max_revision_count in
      let a = require-eq-done (valid_verification_settings service.settings) _ _ h in
      let b = >>=-eq-done (verification_input n thread s observations) _ a.1 in
      let i = verification_id_of sha256 plan_json b.0.identity b.0.revision b.0.plan in
      let c = >>=-eq-done (replay sha256 plan_json n i b.0) _ b.2 in
      let read = verification_input-eq-done n thread s observations b.0 b.1 in
      (b.0, read.0, read.1, ended service i b.0 out c.0 c.1 c.2)
    where
      ended :
          (service : VerificationService) (i : Str) (x : VerificationInput) (out : Verified)
          (o : Option OutcomeVerification)
          → replay sha256 plan_json service.settings.max_revision_count i x ≡ done o
          → (elim o [
            | some v ↦ done (record { observations = []; status = status_for v })
            | none ↦
                verify_loaded sha256 plan_json service i x
                  (service.load i x.identity.actor_id x.identity.device_id)
          ])
            ≡ done out
          → IsAccepted service.settings.max_revision_count x out.status
      ended service i x out (some v) e k =
          let same = ap (λ (z : Verified). z.status) (done_inj k) in
          rw (sym same) (replay-IsAccepted service.settings.max_revision_count i x v e)
      ended service i x out none e k =
          verify_loaded-IsAccepted service i x
            (service.load i x.identity.actor_id x.identity.device_id) out k

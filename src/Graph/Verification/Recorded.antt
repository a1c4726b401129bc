-- ===== src/Graph/Verification/Recorded.antt =====
-- What a store that keeps a new verification gives back, at once and on a later run
-- (backend/src/jarvis/graph/verification.py).
use sriee.Base.{
  ℕ, ◌≡◌, refl, Bool, true, false, ◌&&◌, Option, none, List, ◌==◌, str_eq, nat_beq_iff, leb, length,
  all, if◌then◌else◌, if_intro, sym, ap, ◌∙◌, and-true, and_intro, str_beq_self,
}
use sriee.Text.{Str}
use sriee.Graph.Plan.{PlanDraft}
use sriee.Graph.Node.{
  Node, validation_error, done, ◌>>◌, require, Moment, >>=-eq-done, require-eq-done, done_inj,
}
use sriee.Graph.Policy.Contract.{distinct}
use sriee.Graph.State.{GraphState, is_subset, unique}
use sriee.Graph.Verification.Contract.{
  CriterionObservation, PersistenceRequest, VerificationRecord, valid_persistence,
  valid_verification_record, is_passed, is_failed, is_uncertain,
}
use sriee.Graph.Verification.Judge.{
  aggregate, classify_outcome, is_recoverable, count, criterion_ids, observed_ids, valid_semantics,
  covers_criteria, same_sizes, same_judgement, same_counts,
}
use sriee.Graph.Verification.Verify.{
  run_criteria, persistence_request, checked_record, recorded, verify_loaded, verified_by,
  verify_outcome, verification_id_of, replay,
}
use sriee.Graph.Verification.Input.{
  VerificationService, VerificationSettings, VerificationInput, Verified, Loaded, Recorded,
  Evidence, paired, aware_now, verification_input, valid_verification_settings,
}
use sriee.Graph.Verification.Aggregate.{AllOf, AllOf-observed_ids}
use sriee.Graph.Verification.Complete.{
  paired-Paired, distinct-AllFound, unique-distinct, is_subset_self, nat_beq_self,
  same_outcome_self, same_flag_self, AllOf-fits_plan, run_criteria-AllOf, length-AllOf,
}

-- The request's observations are of the plan's criteria, in order, and its aggregate is theirs.
module _ (sha256 : Str → Str) (plan_json : PlanDraft → Str) where
  record IsRun (service : VerificationService) (i : Str) (x : VerificationInput)
      (r : PersistenceRequest) : Type 0 where
    started : Moment
    finished : Moment
    observations : List CriterionObservation
    are_all : AllOf sha256 i x.results x.plan.success_criteria observations
    in_time :
        all (λ (o : CriterionObservation). leb o.observed_at.at finished.at) observations ≡ true
    valid : valid_persistence r ≡ true
    made : r ≡ record {
      actor_id = x.identity.actor_id;
      device_id = x.identity.device_id;
      criterion_observations = observations;
      outcome =
          aggregate i x.identity.task_id x.identity.thread_id x.revision x.plan
            (length x.results)
            observations
            service.settings.max_revision_count
            finished;
    }

  kept :
      (q r : PersistenceRequest)
      → (if valid_persistence q then done q else validation_error) ≡ done r
      → (r ≡ q) × (valid_persistence r ≡ true)
  kept q r =
      if_intro
        (λ (m : Node PersistenceRequest). m ≡ done r → (r ≡ q) × (valid_persistence r ≡ true))
        (valid_persistence q)
        (λ t h. (sym (done_inj h), ap valid_persistence (sym (done_inj h)) ∙ t)) (λ f h. cc)

  persistence_request-IsRun :
      (service : VerificationService) (i : Str) (x : VerificationInput) (r : PersistenceRequest)
      → persistence_request sha256 plan_json service i x ≡ done r
      → IsRun service i x r
  unfolding persistence_request
  persistence_request-IsRun service i x r h =
      let a = >>=-eq-done (aware_now service.started) _ h in
      let b = >>=-eq-done (paired x.plan.actions x.plan.success_criteria) _ a.2 in
      let c =
        >>=-eq-done (run_criteria sha256 plan_json service.probes i a.0 x.identity x.results b.0) _
          b.2 in
      let d = >>=-eq-done (aware_now service.finished) _ c.2 in
      let e =
        require-eq-done
          (leb a.0.at d.0.at && all (λ (o : CriterionObservation). leb o.observed_at.at d.0.at) c.0)
          _ _ d.2 in
      let k = kept _ r e.1 in
      record {
        started = a.0;
        finished = d.0;
        observations = c.0;
        are_all =
            run_criteria-AllOf sha256 i plan_json service.probes a.0 x.identity x.results c.0
              (paired-Paired x.plan.actions x.plan.success_criteria b.0 b.1) c.1;
        in_time = (and-true (leb a.0.at d.0.at) _ e.0).1;
        valid = k.1;
        made = k.0;
      }

  run-valid_semantics :
      (service : VerificationService) (i : Str) (x : VerificationInput) (r : PersistenceRequest)
      → IsRun service i x r
      → distinct (criterion_ids x.plan) ≡ true
      → valid_semantics sha256 x.plan x.results service.settings.max_revision_count r.outcome
          r.criterion_observations
        ≡ true
  unfolding valid_semantics covers_criteria same_sizes same_judgement same_counts aggregate
  run-valid_semantics service i x r m d =
      let os = m.observations in
      let ids = criterion_ids x.plan in
      let n = service.settings.max_revision_count in
      let v =
        aggregate i x.identity.task_id x.identity.thread_id x.revision x.plan (length x.results) os
          n m.finished in
      let same_ids : observed_ids os ≡ ids = AllOf-observed_ids sha256 i m.are_all in
      let sizes : length os ≡ length (unique ids) =
        length-AllOf sha256 i m.are_all
        ∙ ap (λ (t : List Str). length t) (sym (unique-distinct ids d)) in
      let covered : covers_criteria sha256 x.plan x.results os ≡ true =
        and_intro ((nat_beq_iff _ _).1 sizes) (
          and_intro (ap (λ (t : List Str). is_subset t ids) same_ids ∙ is_subset_self ids)
            (ap (λ (t : List Str). is_subset ids t) same_ids ∙ is_subset_self ids)) in
      let fits =
        AllOf-fits_plan sha256 i x.plan x.results m.are_all
          (distinct-AllFound x.plan.success_criteria d) in
      let whole : valid_semantics sha256 x.plan x.results n v os ≡ true = and_intro covered (
        and_intro fits (
          and_intro
            (and_intro (nat_beq_self (length os))
              (and_intro (nat_beq_self (length x.plan.actions)) (nat_beq_self (length x.results))))
            (and_intro
              (and_intro (same_outcome_self (classify_outcome os))
                (same_flag_self (is_recoverable x.revision n os)))
              (and_intro
                (and_intro (nat_beq_self (count is_passed os)) (
                  and_intro (nat_beq_self (count is_failed os))
                    (nat_beq_self (count is_uncertain os))))
                m.in_time)))) in
      ap
        (λ (q : PersistenceRequest).
          valid_semantics sha256 x.plan x.results n q.outcome q.criterion_observations)
        m.made
      ∙ whole

  -- A record of the request, stored at a time that the contract allows.
  abbrev pub Keeps : PersistenceRequest → VerificationRecord → Type 0
  Keeps r y =
      (y.request ≡ r)
      × (y.stored_at.is_aware ≡ true)
      × (leb r.outcome.verified_at.at y.stored_at.at ≡ true)

  require-true : {A : Type 0} (b : Bool) (e : Str) (k : Node A) → b ≡ true → (require b e >> k) ≡ k
  require-true true e k h = refl
  require-true false e k h = cc

  kept-verified :
      (service : VerificationService) (i : Str) (x : VerificationInput) (r : PersistenceRequest)
      (y : VerificationRecord)
      → persistence_request sha256 plan_json service i x ≡ done r
      → distinct (criterion_ids x.plan) ≡ true
      → Keeps r y
      → recorded sha256 plan_json service.settings.max_revision_count i x (Recorded.stored y)
        ≡ done (verified_by sha256 plan_json y)
  unfolding recorded checked_record valid_verification_record aggregate
  kept-verified service i x r y h d k =
      let n = service.settings.max_revision_count in
      let m = persistence_request-IsRun service i x r h in
      let fine : valid_verification_record y ≡ true =
        and_intro (ap valid_persistence k.0 ∙ m.valid) (
          and_intro k.1 (
            ap (λ (q : PersistenceRequest). leb q.outcome.verified_at.at y.stored_at.at) k.0
            ∙ k.2)) in
      let own : (y.request.actor_id == x.identity.actor_id
            && (y.request.device_id == x.identity.device_id
                && y.request.outcome.verification_id == i))
          ≡ true =
        ap
          (λ (q : PersistenceRequest).
            q.actor_id == x.identity.actor_id
            && (q.device_id == x.identity.device_id && q.outcome.verification_id == i))
          (k.0 ∙ m.made)
        ∙ and_intro (str_beq_self _) (and_intro (str_beq_self _) (str_beq_self i)) in
      let judged : valid_semantics sha256 x.plan x.results n y.request.outcome
            y.request.criterion_observations
          ≡ true =
        ap
          (λ (q : PersistenceRequest).
            valid_semantics sha256 x.plan x.results n q.outcome q.criterion_observations)
          k.0
        ∙ run-valid_semantics service i x r m d in
      rw fine (rw own (rw judged refl))

  same_answer :
      (y z : VerificationRecord)
      → y.request ≡ z.request
      → verified_by sha256 plan_json z ≡ verified_by sha256 plan_json y
  same_answer y z e =
      ap
        (λ (q : PersistenceRequest).
          verified_by sha256 plan_json
            (record { request = q; stored_at = y.stored_at; created = true }))
        (sym e)

  -- A run that has been read, for which the state holds no aggregate yet, asks the store.
  verify_outcome-asks :
      (service : VerificationService) (thread : Str) (s : GraphState)
      (observations : Option (List Evidence)) (x : VerificationInput) (loaded : Loaded)
      → valid_verification_settings service.settings ≡ true
      → verification_input service.settings.max_revision_count thread s observations ≡ done x
      → replay sha256 plan_json service.settings.max_revision_count
          (verification_id_of sha256 plan_json x.identity x.revision x.plan)
          x
        ≡ done none
      → service.load
          (verification_id_of sha256 plan_json x.identity x.revision x.plan)
          x.identity.actor_id
          x.identity.device_id
        ≡ loaded
      → verify_outcome sha256 plan_json service thread s observations
        ≡ verify_loaded sha256 plan_json service
            (verification_id_of sha256 plan_json x.identity x.revision x.plan)
            x
            loaded
  unfolding verify_outcome
  verify_outcome-asks service thread s observations x loaded ok reads fresh found =
      rw ok (rw reads (rw fresh (rw found refl)))

  -- A new verification whose observations and aggregate pydantic accepts ends well, if the plan's criteria have
  -- different identifiers and the store returns a record of the request that it was given, stored no earlier than
  -- the verification. When the node runs again in the same state with a store that holds that request, it gives the
  -- same answer, whatever the probes and the clock do by then.
  pub kept_verification_replays :
      (service again : VerificationService) (thread : Str) (s : GraphState)
      (observations : Option (List Evidence)) (x : VerificationInput) (r : PersistenceRequest)
      (y z : VerificationRecord)
      → valid_verification_settings service.settings ≡ true
      → again.settings ≡ service.settings
      → verification_input service.settings.max_revision_count thread s observations ≡ done x
      → replay sha256 plan_json service.settings.max_revision_count
          (verification_id_of sha256 plan_json x.identity x.revision x.plan)
          x
        ≡ done none
      → distinct (criterion_ids x.plan) ≡ true
      → service.load
          (verification_id_of sha256 plan_json x.identity x.revision x.plan)
          x.identity.actor_id
          x.identity.device_id
        ≡ Loaded.absent
      → persistence_request sha256 plan_json service
          (verification_id_of sha256 plan_json x.identity x.revision x.plan)
          x
        ≡ done r
      → service.save r ≡ Recorded.stored y
      → Keeps r y
      → again.load
          (verification_id_of sha256 plan_json x.identity x.revision x.plan)
          x.identity.actor_id
          x.identity.device_id
        ≡ Loaded.stored z
      → Keeps r z
      → (verify_outcome sha256 plan_json service thread s observations
          ≡ done (verified_by sha256 plan_json y))
        × (verify_outcome sha256 plan_json again thread s observations
            ≡ done (verified_by sha256 plan_json y))
  unfolding verify_loaded
  kept_verification_replays service again thread s observations x r y z ok same reads fresh d new h
        saved k found k' =
      let n = service.settings.max_revision_count in
      let i = verification_id_of sha256 plan_json x.identity x.revision x.plan in
      let e = ap (λ (q : VerificationSettings). q.max_revision_count) same in
      let first =
        verify_outcome-asks service thread s observations x Loaded.absent ok reads fresh new
        ∙ rw h (rw saved (kept-verified service i x r y h d k)) in
      let second =
        verify_outcome-asks again thread s observations x (Loaded.stored z)
          (ap valid_verification_settings same ∙ ok)
          (ap (λ (m : ℕ). verification_input m thread s observations) e ∙ reads)
          (ap (λ (m : ℕ). replay sha256 plan_json m i x) e ∙ fresh) found
        ∙ ap (λ (m : ℕ). recorded sha256 plan_json m i x (Recorded.stored z)) e
        ∙ kept-verified service i x r z h d k'
        ∙ ap (λ (v : Verified). done v) (same_answer y z (k.0 ∙ sym k'.0)) in
      (first, second)

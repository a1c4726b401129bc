-- ===== src/Graph/Verification/Verify.antt =====
-- `verifyOutcome` of backend/src/jarvis/graph/verification.py. SHA-256, a plan's canonical JSON, the probes,
-- the store and the clock are parameters; a timeout is in microseconds.
use sriee.Base.{
  ℕ, Bool, ◌&&◌, Option, none, some, List, [], ◌∷◌, ◌++◌, ◌==◌, str_eq, nat_beq, leb, length, map,
  all, take, if◌then◌else◌,
}
use sriee.Text.{Str, codes}
use sriee.Graph.Plan.{PlanDraft, PlanActionDraft, PlanSuccessCriterion}
use sriee.Graph.Node.{Node, refused, validation_error, done, ◌>>=◌, ◌>>◌, require, Moment}
use sriee.Graph.State.{Identity, PriorActionResult, GraphState, same_set, unique}
use sriee.Graph.Approval.Request.{decimal}
use sriee.Graph.Verification.Contract.{
  CriterionObservation, OutcomeVerification, PersistenceRequest, VerificationRecord,
  valid_persistence, valid_verification_record, is_empty,
}
use sriee.Graph.Verification.Judge.{
  aggregate, criterion_ids, observed_ids, result_for, valid_semantics, status_for,
}
use sriee.Graph.Verification.Observe.{Probes, run_criterion}
use sriee.Graph.Verification.Input.{
  Evidence, criterion, outcome, Loaded, unavailable, absent, wrong_type, stored, Recorded,
  conflicting, VerificationService, Verified, valid_verification_settings, aware_now,
  VerificationInput, verification_input, Replay, checkpoint_invalid, collect, paired,
}

module _ (sha256 : Str → Str) (plan_json : PlanDraft → Str) where
  -- `_verification_id`
  unfoldable pub verification_id_of : Identity → ℕ → PlanDraft → Str
  unfolding decimal
  verification_id_of i revision plan =
      codes "vrf_"
      ++ take 24 (
          sha256 (
            i.task_id
            ++ codes ":"
            ++ i.thread_id
            ++ codes ":"
            ++ decimal revision
            ++ codes ":"
            ++ plan_json plan))

  -- The aggregate is that of the run and of the plan as they are.
  unfoldable pub fits_run :
      ℕ → Str → VerificationInput → List CriterionObservation → OutcomeVerification → Bool
  unfolding valid_semantics
  fits_run max_revision_count verification_id x os v =
      ((v.task_id == x.identity.task_id && v.thread_id == x.identity.thread_id)
        && (nat_beq v.revision x.revision
            && nat_beq v.criterion_count (length (unique (criterion_ids x.plan)))))
      && ((nat_beq v.action_count (length x.plan.actions)
            && nat_beq v.action_result_count (length x.results))
          && ((nat_beq (length os) (length (unique (criterion_ids x.plan)))
                && same_set (observed_ids os) (criterion_ids x.plan))
              && (all (λ (o : CriterionObservation). o.verification_id == verification_id) os
                  && valid_semantics sha256 x.plan x.results max_revision_count v os)))

  abbrev pub settled : ℕ → Str → VerificationInput → Replay → Node (Option OutcomeVerification)
  settled max_revision_count verification_id x seen = elim seen.aggregate [
    | none ↦ if is_empty seen.criteria then done none else refused checkpoint_invalid
    | some v ↦
        if fits_run max_revision_count verification_id x seen.criteria v
        then done (some v)
        else refused checkpoint_invalid
  ]

  -- `_validate_checkpoint_replay`
  unfoldable pub replay : ℕ → Str → VerificationInput → Node (Option OutcomeVerification)
  unfolding collect fits_run
  replay max_revision_count verification_id x = do
    seen ← collect verification_id (record { criteria = []; aggregate = none }) x.observations
    settled max_revision_count verification_id x seen

  -- `_validate_record`, of a record.
  unfoldable pub checked_record :
      ℕ → Str → VerificationInput → VerificationRecord → Node VerificationRecord
  unfolding valid_verification_record valid_semantics
  checked_record max_revision_count verification_id x y = do
    require (valid_verification_record y) (codes "verification_record_invalid")
    require
        (y.request.actor_id == x.identity.actor_id
          && (y.request.device_id == x.identity.device_id
              && y.request.outcome.verification_id == verification_id))
        (codes "verification_record_invalid")
    require
        (valid_semantics sha256 x.plan x.results max_revision_count y.request.outcome
          y.request.criterion_observations)
        (codes "verification_record_invalid")
    done y

  abbrev pub verified_by : VerificationRecord → Verified
  verified_by y = record {
    observations =
        map (λ (o : CriterionObservation). criterion o) y.request.criterion_observations
        ++ (outcome y.request.outcome ∷ []);
    status = status_for y.request.outcome;
  }

  -- The tasks that are gathered, one after the other.
  unfoldable pub run_criteria :
      Probes
      → Str
      → Moment
      → Identity
      → List PriorActionResult
      → List (PlanSuccessCriterion × PlanActionDraft)
      → Node (List CriterionObservation)
  unfolding run_criterion result_for
  run_criteria probes verification_id requested_at i rs [] = done []
  run_criteria probes verification_id requested_at i rs (x ∷ xs) = do
    o ←
        run_criterion sha256 verification_id requested_at probes i x.0 x.1
          (result_for x.0.action_id rs)
    os ← run_criteria probes verification_id requested_at i rs xs
    done (o ∷ os)

  -- The observations and the aggregate that are handed to the store.
  unfoldable pub persistence_request :
      VerificationService → Str → VerificationInput → Node PersistenceRequest
  unfolding run_criteria aggregate valid_persistence
  persistence_request service verification_id x = do
    requested_at ← aware_now service.started
    pairs ← paired x.plan.actions x.plan.success_criteria
    os ← run_criteria service.probes verification_id requested_at x.identity x.results pairs
    verified_at ← aware_now service.finished
    require
        (leb requested_at.at verified_at.at
          && all (λ (o : CriterionObservation). leb o.observed_at.at verified_at.at) os)
        (codes "verification_clock_invalid")
    let r : PersistenceRequest = record {
      actor_id = x.identity.actor_id;
      device_id = x.identity.device_id;
      criterion_observations = os;
      outcome =
          aggregate verification_id x.identity.task_id x.identity.thread_id x.revision x.plan
            (length x.results) os service.settings.max_revision_count verified_at;
    }
    if valid_persistence r then done r else validation_error

  -- What becomes of what the store returns for a new verification.
  unfoldable pub recorded : ℕ → Str → VerificationInput → Recorded → Node Verified
  unfolding checked_record status_for
  recorded n verification_id x conflicting = refused (codes "verification_record_conflict")
  recorded n verification_id x unavailable = refused (codes "verification_store_unavailable")
  recorded n verification_id x wrong_type = refused (codes "verification_record_invalid")
  recorded n verification_id x (stored y) = do
    z ← checked_record n verification_id x y
    done (verified_by z)

  -- What becomes of what the store holds.
  unfoldable pub verify_loaded :
      VerificationService → Str → VerificationInput → Loaded → Node Verified
  unfolding persistence_request recorded
  verify_loaded service verification_id x unavailable =
      refused (codes "verification_store_unavailable")
  verify_loaded service verification_id x wrong_type = refused (codes "verification_record_invalid")
  verify_loaded service verification_id x (stored y) =
      recorded service.settings.max_revision_count verification_id x (stored y)
  verify_loaded service verification_id x absent = do
    r ← persistence_request service verification_id x
    recorded service.settings.max_revision_count verification_id x (service.save r)

  -- `verifyOutcome`
  unfoldable pub verify_outcome :
      VerificationService → Str → GraphState → Option (List Evidence) → Node Verified
  unfolding valid_verification_settings verification_input verification_id_of replay verify_loaded
      status_for
  verify_outcome service thread s observations = do
    require (valid_verification_settings service.settings)
        (codes "verification_settings_incompatible")
    x ← verification_input service.settings.max_revision_count thread s observations
    let verification_id : Str = verification_id_of x.identity x.revision x.plan
    seen ← replay service.settings.max_revision_count verification_id x
    elim seen [
      | some v ↦ done (record { observations = []; status = status_for v })
      | none ↦
          verify_loaded service verification_id x
            (service.load verification_id x.identity.actor_id x.identity.device_id)
    ]

-- ===== src/Graph/Verification/Contract.antt =====
-- The contracts of backend/src/jarvis/graph/verification.py and their validators.
use sriee.Base.{
  ℕ, ◌+◌, Bool, true, false, not, ◌&&◌, ◌||◌, Option, none, some, List, [], ◌∷◌, ◌==◌, str_eq,
  nat_beq, leb, length, map, all, if◌then◌else◌,
}
use sriee.Text.{Str, codes}
use sriee.Dict.{is_some}
use sriee.Tasks.Service.{is_task_id}
use sriee.Graph.Patterns.{
  headed, is_letter, is_plain, is_principal_id, is_thread_id, is_digest_id, is_word_id,
  is_capability_id, is_version, is_action_id, is_reason_code,
}
use sriee.Graph.Plan.{PlanArgument}
use sriee.Graph.Node.{Moment}
use sriee.Graph.Policy.Contract.{distinct}
use sriee.Graph.State.{Identity}

-- `CriterionVerdict`
pub data CriterionVerdict : Type 0 where
  passed failed uncertain : CriterionVerdict

-- `VerifiedOutcome`
pub data VerifiedOutcome : Type 0 where
  succeeded partially_succeeded failed uncertain : VerifiedOutcome

-- `VerificationProbeDescriptor`; `read_only` is a constant.
pub record ProbeDescriptor : Type 0 where
  pub probe_id : Str
  pub capability_id : Str
  pub capability_version : Str
  pub verification_code : Str

-- `VerificationProbeRequest`
pub record ProbeRequest : Type 0 where
  pub verification_id : Str
  pub criterion_id : Str
  pub identity : Identity
  pub action_id : Str
  pub capability_id : Str
  pub capability_version : Str
  pub verification_code : Str
  pub receipt_id : Str
  pub arguments : List PlanArgument
  pub resource_ids : List Str
  pub requested_at : Moment

-- `VerificationProbeResult`; `source` and `read_only` are constants.
pub record ProbeResult : Type 0 where
  pub probe_id : Str
  pub verification_id : Str
  pub criterion_id : Str
  pub action_id : Str
  pub receipt_id : Str
  pub verdict : CriterionVerdict
  pub evidence_reference_ids : List Str
  pub reason_code : Option Str
  pub retryable : Bool
  pub observed_at : Moment

-- `CriterionObservation`; `type` and `version` are constants.
pub record CriterionObservation : Type 0 where
  pub observation_id : Str
  pub verification_id : Str
  pub criterion_id : Str
  pub action_id : Str
  pub receipt_id : Option Str
  pub verification_code : Str
  pub probe_id : Str
  pub verdict : CriterionVerdict
  pub evidence_reference_ids : List Str
  pub reason_code : Option Str
  pub retryable : Bool
  pub observed_at : Moment

-- `OutcomeVerification`; `type` and `version` are constants.
pub record OutcomeVerification : Type 0 where
  pub verification_id : Str
  pub task_id : Str
  pub thread_id : Str
  pub revision : ℕ
  pub outcome : VerifiedOutcome
  pub recoverable : Bool
  pub criterion_count : ℕ
  pub passed_count : ℕ
  pub failed_count : ℕ
  pub uncertain_count : ℕ
  pub action_count : ℕ
  pub action_result_count : ℕ
  pub verified_at : Moment

-- `VerificationPersistenceRequest`
pub record PersistenceRequest : Type 0 where
  pub actor_id : Str
  pub device_id : Str
  pub criterion_observations : List CriterionObservation
  pub outcome : OutcomeVerification

-- `VerificationRecord`
pub record VerificationRecord : Type 0 where
  pub request : PersistenceRequest
  pub stored_at : Moment
  pub created : Bool

-- `PROBE_ID_PATTERN`: `[a-z][a-z0-9_.-]{2,127}`
unfoldable pub is_probe_id : Str → Bool
unfolding headed
is_probe_id s =
    headed is_letter (λ c. is_plain c || (nat_beq c b'_' || (nat_beq c b'.' || nat_beq c b'-'))) 2
      127 s

abbrev pub is_empty {ℓ} : {A : Type ℓ} → List A → Bool
is_empty [] = true
is_empty (_ ∷ _) = false

abbrev pub is_text : Option Str → Str → Bool
is_text none x = false
is_text (some y) x = y == x

-- Evidence and a reason that fit the verdict.
abbrev pub fits_verdict : CriterionVerdict → List Str → Option Str → Bool → Bool
fits_verdict CriterionVerdict.passed evidence reason retryable =
    not (is_empty evidence) && (not (is_some reason) && not retryable)
fits_verdict CriterionVerdict.failed evidence reason retryable =
    not (is_empty evidence) && is_some reason
fits_verdict CriterionVerdict.uncertain evidence reason retryable = is_some reason

-- The part of `validate_result` and of `validate_evidence` that the two share.
unfoldable pub valid_evidence : CriterionVerdict → List Str → Option Str → Bool → Bool
valid_evidence verdict evidence reason retryable =
    (distinct evidence && all (is_word_id (codes "evd_")) evidence)
    && fits_verdict verdict evidence reason retryable

abbrev valid_reason : Option Str → Bool
valid_reason none = true
valid_reason (some x) = is_reason_code x

abbrev valid_receipt : Option Str → Bool
valid_receipt none = true
valid_receipt (some x) = is_word_id (codes "rcp_") x

-- `VerificationProbeRequest` and its validators.
unfoldable pub valid_probe_request : ProbeRequest → Bool
valid_probe_request r =
    (is_digest_id (codes "vrf_") r.verification_id && is_digest_id (codes "crt_") r.criterion_id)
    && ((is_task_id r.identity.task_id && is_thread_id r.identity.thread_id)
        && ((is_principal_id r.identity.actor_id && is_principal_id r.identity.device_id)
            && ((is_action_id r.action_id
                  && (is_capability_id r.capability_id && is_version r.capability_version))
                && ((is_reason_code r.verification_code && is_word_id (codes "rcp_") r.receipt_id)
                    && ((leb (length r.arguments) 12 && leb (length r.resource_ids) 12)
                        && (r.requested_at.is_aware
                            && (distinct (map (λ (x : PlanArgument). x.name) r.arguments)
                                && (distinct r.resource_ids
                                    && all (is_word_id (codes "res_")) r.resource_ids))))))))

-- `VerificationProbeResult` and its validators.
unfoldable pub valid_probe_result : ProbeResult → Bool
unfolding valid_evidence is_probe_id
valid_probe_result r =
    (is_probe_id r.probe_id && is_digest_id (codes "vrf_") r.verification_id)
    && ((is_digest_id (codes "crt_") r.criterion_id && is_action_id r.action_id)
        && ((is_word_id (codes "rcp_") r.receipt_id && leb (length r.evidence_reference_ids) 8)
            && ((valid_reason r.reason_code && r.observed_at.is_aware)
                && valid_evidence r.verdict r.evidence_reference_ids r.reason_code r.retryable)))

abbrev pub is_uncertain : CriterionVerdict → Bool
is_uncertain CriterionVerdict.uncertain = true
is_uncertain _ = false

abbrev pub is_passed : CriterionVerdict → Bool
is_passed CriterionVerdict.passed = true
is_passed _ = false

abbrev pub is_failed : CriterionVerdict → Bool
is_failed CriterionVerdict.failed = true
is_failed _ = false

abbrev pub is_system : Str → Bool
is_system probe_id = probe_id == codes "system.verification"

-- What `validate_evidence` asks of an observation that the system makes, and of one that a probe makes.
unfoldable pub fits_probe : CriterionObservation → Bool
fits_probe o =
    if is_system o.probe_id
    then is_uncertain o.verdict
      && (is_empty o.evidence_reference_ids
          && ((is_text o.reason_code (codes "action_result_missing")
                || (is_text o.reason_code (codes "probe_timeout")
                    || is_text o.reason_code (codes "probe_unavailable")))
              && o.retryable))
    else is_some o.receipt_id

-- The field constraints of `CriterionObservation` and `validate_observed_at`.
unfoldable pub valid_fields : CriterionObservation → Bool
unfolding is_probe_id
valid_fields o =
    (is_digest_id (codes "obs_") o.observation_id && is_digest_id (codes "vrf_") o.verification_id)
    && ((is_digest_id (codes "crt_") o.criterion_id && is_action_id o.action_id)
        && ((valid_receipt o.receipt_id
              && (is_reason_code o.verification_code && is_probe_id o.probe_id))
            && (leb (length o.evidence_reference_ids) 8
                && (valid_reason o.reason_code && o.observed_at.is_aware))))

-- `CriterionObservation` and its validators.
unfoldable pub valid_observation : CriterionObservation → Bool
unfolding valid_fields valid_evidence fits_probe
valid_observation o =
    valid_fields o
    && (valid_evidence o.verdict o.evidence_reference_ids o.reason_code o.retryable && fits_probe o)

abbrev pub is_success : VerifiedOutcome → Bool
is_success VerifiedOutcome.succeeded = true
is_success _ = false

-- `OutcomeVerification` and its validators.
unfoldable pub valid_outcome : OutcomeVerification → Bool
valid_outcome v =
    (is_digest_id (codes "vrf_") v.verification_id
      && (is_task_id v.task_id && is_thread_id v.thread_id))
    && ((leb v.revision 2 && (leb 1 v.criterion_count && leb v.criterion_count 16))
        && ((leb v.passed_count 16 && (leb v.failed_count 16 && leb v.uncertain_count 16))
            && ((leb 1 v.action_count && (leb v.action_count 8 && leb v.action_result_count 8))
                && (v.verified_at.is_aware
                    && (nat_beq (v.passed_count + v.failed_count + v.uncertain_count)
                          v.criterion_count
                        && (leb v.action_result_count v.action_count
                            && not (is_success v.outcome && v.recoverable)))))))

-- `VerificationPersistenceRequest`
unfoldable pub valid_persistence : PersistenceRequest → Bool
unfolding valid_observation valid_outcome
valid_persistence r =
    (is_principal_id r.actor_id && is_principal_id r.device_id)
    && ((leb 1 (length r.criterion_observations) && leb (length r.criterion_observations) 16)
        && (all valid_observation r.criterion_observations && valid_outcome r.outcome))

-- `VerificationRecord` and its validators.
unfoldable pub valid_verification_record : VerificationRecord → Bool
unfolding valid_persistence
valid_verification_record x =
    valid_persistence x.request
    && (x.stored_at.is_aware && leb x.request.outcome.verified_at.at x.stored_at.at)

-- ===== src/Graph/Verification/Observe.antt =====
-- `_run_criterion` of backend/src/jarvis/graph/verification.py. The registry and the probes are parameters.
use sriee.Base.{Bool, true, ◌&&◌, Option, none, some, [], ◌==◌, str_eq, leb, if◌then◌else◌}
use sriee.Text.{Str, codes}
use sriee.Graph.Plan.{PlanActionDraft, PlanSuccessCriterion}
use sriee.Graph.Node.{Node, refused, validation_error, done, ◌>>=◌, ◌>>◌, require, Moment}
use sriee.Graph.State.{Identity, PriorActionResult, sorted_set}
use sriee.Graph.Dispatch.Action.{resource_values}
use sriee.Graph.Verification.Contract.{
  CriterionVerdict, CriterionObservation, ProbeDescriptor, ProbeRequest, ProbeResult,
  valid_probe_request, valid_probe_result, valid_observation,
}
use sriee.Graph.Verification.Judge.{observation_id}

-- What the registry does: it raises, has no probe, gives something without a
-- `VerificationProbeDescriptor`, or gives a probe.
pub data ProbeLookup : Type 0 where
  unreachable missing undescribed : ProbeLookup
  found : ProbeDescriptor → ProbeLookup

-- What a probe does within its time: nothing, it raises, it returns something that is no
-- `VerificationProbeResult`, or a result.
pub data ProbeReply : Type 0 where
  timed_out failing wrong_type : ProbeReply
  replied : ProbeResult → ProbeReply

-- The registry, by code, capability and version, and the probes, by their descriptor.
pub record Probes : Type 0 where
  pub resolve_probe : Str → Str → Str → ProbeLookup
  pub verify : ProbeDescriptor → ProbeRequest → ProbeReply

abbrev pub validated : CriterionObservation → Node CriterionObservation
validated o = if valid_observation o then done o else validation_error

abbrev pub validated_request : ProbeRequest → Node ProbeRequest
validated_request r = if valid_probe_request r then done r else validation_error

abbrev pub probe_invalid : Str
probe_invalid = codes "verification_probe_invalid"

-- The registered descriptor is that of the criterion and the action.
abbrev pub describes : PlanSuccessCriterion → PlanActionDraft → ProbeDescriptor → Bool
describes c a p =
    p.capability_id == a.capability_id
    && (p.capability_version == a.capability_version && p.verification_code == c.verification_code)

-- The test that the node makes of a valid reply.
abbrev pub answers : ProbeDescriptor → ProbeRequest → PriorActionResult → ProbeResult → Bool
answers p q r x =
    (x.probe_id == p.probe_id && x.verification_id == q.verification_id)
    && ((x.criterion_id == q.criterion_id && x.action_id == q.action_id)
        && (x.receipt_id == r.receipt_id
            && (leb q.requested_at.at x.observed_at.at && leb r.completed_at.at x.observed_at.at)))

unfoldable pub probe_request :
    Str
    → Identity
    → Moment
    → PlanSuccessCriterion
    → PlanActionDraft
    → PriorActionResult
    → ProbeRequest
unfolding resource_values sorted_set
probe_request verification_id i requested_at c a r = record {
  verification_id = verification_id;
  criterion_id = c.criterion_id;
  identity = i;
  action_id = a.action_id;
  capability_id = a.capability_id;
  capability_version = a.capability_version;
  verification_code = c.verification_code;
  receipt_id = r.receipt_id;
  arguments = a.arguments;
  resource_ids = sorted_set (resource_values a.arguments);
  requested_at = requested_at;
}

module _ (sha256 : Str → Str) (verification_id : Str) (requested_at : Moment) where
  -- `_system_observation`, before pydantic validates it.
  unfoldable pub system_observation : PlanSuccessCriterion → Option Str → Str → CriterionObservation
  unfolding observation_id
  system_observation c receipt_id reason_code = record {
    observation_id = observation_id sha256 verification_id c.criterion_id;
    verification_id = verification_id;
    criterion_id = c.criterion_id;
    action_id = c.action_id;
    receipt_id = receipt_id;
    verification_code = c.verification_code;
    probe_id = codes "system.verification";
    verdict = CriterionVerdict.uncertain;
    evidence_reference_ids = [];
    reason_code = some reason_code;
    retryable = true;
    observed_at = requested_at;
  }

  unfoldable pub probe_observation :
      PlanSuccessCriterion
      → PlanActionDraft
      → PriorActionResult
      → ProbeResult
      → CriterionObservation
  unfolding observation_id
  probe_observation c a r x = record {
    observation_id = observation_id sha256 verification_id c.criterion_id;
    verification_id = verification_id;
    criterion_id = c.criterion_id;
    action_id = a.action_id;
    receipt_id = some r.receipt_id;
    verification_code = c.verification_code;
    probe_id = x.probe_id;
    verdict = x.verdict;
    evidence_reference_ids = x.evidence_reference_ids;
    reason_code = x.reason_code;
    retryable = x.retryable;
    observed_at = x.observed_at;
  }

  -- What becomes of a probe's reply.
  unfoldable pub observe_reply :
      ProbeDescriptor
      → ProbeRequest
      → PlanSuccessCriterion
      → PlanActionDraft
      → PriorActionResult
      → ProbeReply
      → Node CriterionObservation
  unfolding system_observation probe_observation
  observe_reply p q c a r timed_out =
      validated (system_observation c (some r.receipt_id) (codes "probe_timeout"))
  observe_reply p q c a r failing =
      validated (system_observation c (some r.receipt_id) (codes "probe_unavailable"))
  observe_reply p q c a r wrong_type = refused probe_invalid
  observe_reply p q c a r (replied x) = do
    require (valid_probe_result x && answers p q r x) probe_invalid
    validated (probe_observation c a r x)

  -- What becomes of what the registry gives.
  unfoldable pub observe_lookup :
      Probes
      → Identity
      → PlanSuccessCriterion
      → PlanActionDraft
      → PriorActionResult
      → ProbeLookup
      → Node CriterionObservation
  unfolding system_observation probe_request observe_reply
  observe_lookup probes i c a r unreachable = refused (codes "verification_registry_unavailable")
  observe_lookup probes i c a r missing =
      validated (system_observation c (some r.receipt_id) (codes "probe_unavailable"))
  observe_lookup probes i c a r undescribed = refused probe_invalid
  observe_lookup probes i c a r (found p) = do
    require (describes c a p) probe_invalid
    q ← validated_request (probe_request verification_id i requested_at c a r)
    observe_reply p q c a r (probes.verify p q)

  -- `_run_criterion`
  unfoldable pub run_criterion :
      Probes
      → Identity
      → PlanSuccessCriterion
      → PlanActionDraft
      → Option PriorActionResult
      → Node CriterionObservation
  unfolding system_observation observe_lookup
  run_criterion probes i c a none =
      validated (system_observation c none (codes "action_result_missing"))
  run_criterion probes i c a (some r) =
      observe_lookup probes i c a r
        (probes.resolve_probe c.verification_code a.capability_id a.capability_version)

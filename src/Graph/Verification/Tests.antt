-- ===== src/Graph/Verification/Tests.antt =====
-- A plan of one action whose criterion a probe confirms; the theorems on
-- backend/src/jarvis/graph/verification.py there.
use sriee.Base.{pos, ◌≡◌, refl, true, false, str_beq, leb, none, some, [], ◌∷◌}
use sriee.Text.{Str, codes, prefixed, after_prefix, repeated, is_hex, is_alnum, is_safe, is_word}
use sriee.Tasks.Service.{is_task_id}
use sriee.Graph.Patterns.{
  is_principal_id, headed, is_version, is_capability_id, is_reason_code, version_from,
  capability_from, is_thread_id, is_action_id, is_digest_id, is_word_id,
}
use sriee.Graph.Plan.{PlanDraft}
use sriee.Graph.Node.{Node, done}
use sriee.Graph.Policy.Contract.{distinct}
use sriee.Graph.Policy.Decide.{sorted}
use sriee.Graph.State.{
  PriorActionResult, ActionOutcome, nothing, GraphState, identity_of, sorted_set,
}
use sriee.Graph.Approval.Request.{decimal, decimal_digits}
use sriee.Graph.Dispatch.Action.{resource_values}
use sriee.Graph.Verification.Contract.{
  CriterionVerdict, ProbeDescriptor, PersistenceRequest, VerificationRecord, is_probe_id,
  valid_evidence, valid_probe_request, valid_probe_result, fits_probe, valid_fields,
  valid_observation, valid_outcome, valid_persistence,
}
use sriee.Graph.Verification.Judge.{
  observation_id, classify_outcome, is_recoverable, aggregate, criterion_ids, result_for,
}
use sriee.Graph.Verification.Observe.{
  Probes, ProbeLookup, ProbeReply, probe_request, probe_observation, observe_reply, observe_lookup,
  run_criterion,
}
use sriee.Graph.Verification.Verify.{
  verification_id_of, replay, verified_by, run_criteria, persistence_request, verify_outcome,
}
use sriee.Graph.Verification.Input.{
  VerificationSettings, VerificationService, VerificationInput, Verified, Loaded, Recorded,
  valid_verification_settings, valid_results, verification_input, collect,
}
use sriee.Graph.Verification.Recorded.{kept_verification_replays}

abbrev open_id : Str
open_id = codes "act_000000000000000000000001"

abbrev shown_id : Str
shown_id = codes "crt_000000000000000000000001"

abbrev plan : PlanDraft
plan = record {
  schema_version = codes "1.0";
  objective = codes "file_task";
  assumptions = [];
  actions =
      (record {
        action_id = open_id;
        capability_id = codes "file.open";
        capability_version = codes "1.0.0";
        arguments = [];
        dependencies = [];
        timeout_seconds = 30;
      })
      ∷ [];
  success_criteria =
      (record {
        criterion_id = shown_id;
        action_id = open_id;
        verification_code = codes "file_present";
      })
      ∷ [];
  warnings = [];
}

abbrev opened : PriorActionResult
opened = record {
  dispatch_id = codes "dsp_000000000000000000000001";
  action_id = open_id;
  receipt_id = codes "rcp_00000001";
  outcome = ActionOutcome.succeeded;
  completed_at = record { at = 5; is_aware = true };
}

abbrev thread : Str
thread = codes "thr_00000000000000000000000000000001"

abbrev verifying : GraphState
verifying = record {
  status = some (codes "verifying");
  task_id = some (codes "tsk_00000000000000000000000000000001");
  thread_id = some thread;
  actor_id = some (codes "ann");
  device_id = some (codes "laptop");
  plan = some plan;
  policy_decisions = none;
  action_results = some (opened ∷ []);
  pending_approval = nothing;
  revision_count = some (pos 0);
}

abbrev digest : Str → Str
digest s = codes "0000000000000000000000aa"

abbrev plan_text : PlanDraft → Str
plan_text p = p.objective

abbrev probe : ProbeDescriptor
probe = record {
  probe_id = codes "probe.file";
  capability_id = codes "file.open";
  capability_version = codes "1.0.0";
  verification_code = codes "file_present";
}

-- The file is there.
abbrev probes : Probes
probes = record {
  resolve_probe = λ code capability version. ProbeLookup.found probe;
  verify = λ p q. ProbeReply.replied (record {
    probe_id = p.probe_id;
    verification_id = q.verification_id;
    criterion_id = q.criterion_id;
    action_id = q.action_id;
    receipt_id = q.receipt_id;
    verdict = CriterionVerdict.passed;
    evidence_reference_ids = codes "evd_00000001" ∷ [];
    reason_code = none;
    retryable = false;
    observed_at = record { at = 11; is_aware = true };
  });
}

abbrev settings : VerificationSettings
settings = record { probe_timeout = 5000000; max_concurrency = 4; max_revision_count = 2 }

abbrev kept : PersistenceRequest → VerificationRecord
kept r = record { request = r; stored_at = record { at = 13; is_aware = true }; created = true }

-- The store is empty and keeps what it is given.
abbrev service : VerificationService
service = record {
  settings = settings;
  probes = probes;
  load = λ i actor device. Loaded.absent;
  save = λ r. Recorded.stored (kept r);
  started = some (record { at = 10; is_aware = true });
  finished = some (record { at = 12; is_aware = true });
}

abbrev input : VerificationInput
input = record {
  identity = record {
    task_id = codes "tsk_00000000000000000000000000000001";
    thread_id = thread;
    actor_id = codes "ann";
    device_id = codes "laptop";
  };
  revision = 0;
  plan = plan;
  results = opened ∷ [];
  observations = [];
}

abbrev verification_id : Str
verification_id = codes "vrf_0000000000000000000000aa"

abbrev request_of : Node PersistenceRequest → PersistenceRequest
request_of (done r) = r
request_of _ = record {
  actor_id = [];
  device_id = [];
  criterion_observations = [];
  outcome = aggregate verification_id [] [] 0 plan 0 [] 0 (record { at = 0; is_aware = true });
}

abbrev request : PersistenceRequest
request = request_of (persistence_request digest plan_text service verification_id input)

-- Later the store has it, and no probe answers.
abbrev again : VerificationService
again = record {
  settings = settings;
  probes = record {
    resolve_probe = λ code capability version. ProbeLookup.unreachable;
    verify = λ p q. ProbeReply.failing;
  };
  load = λ i actor device. Loaded.stored (record {
    request = request;
    stored_at = record { at = 13; is_aware = true };
    created = false;
  });
  save = λ r. Recorded.unavailable;
  started = none;
  finished = none;
}

abbrev answer : Verified
answer = verified_by digest plan_text (kept request)

reads_input : verification_input 2 thread verifying (some []) ≡ done input
unfolding verification_input identity_of valid_results is_task_id is_thread_id is_principal_id
    prefixed after_prefix repeated is_hex is_alnum is_safe is_word headed str_beq
reads_input = refl

nothing_replayed :
    replay digest plan_text 2 (verification_id_of digest plan_text input.identity 0 plan) input
    ≡ done none
unfolding replay collect
nothing_replayed = refl

makes_request :
    persistence_request digest plan_text service
      (verification_id_of digest plan_text input.identity 0 plan)
      input
    ≡ done request
unfolding verification_id_of decimal decimal_digits persistence_request run_criteria run_criterion
    result_for observe_lookup observe_reply probe_request probe_observation observation_id
    resource_values sorted_set sorted valid_probe_request valid_probe_result valid_observation
    valid_fields valid_evidence fits_probe valid_persistence valid_outcome aggregate
    classify_outcome is_recoverable is_probe_id is_task_id is_thread_id is_principal_id prefixed
    after_prefix repeated is_hex is_alnum is_safe is_word headed is_version version_from
    is_capability_id capability_from is_action_id is_digest_id is_word_id is_reason_code str_beq
makes_request = refl

settings_fine : valid_verification_settings settings ≡ true
unfolding valid_verification_settings
settings_fine = refl

different_criteria : distinct (criterion_ids plan) ≡ true
unfolding str_beq
different_criteria = refl

stored_in_time : leb request.outcome.verified_at.at 13 ≡ true
unfolding persistence_request valid_probe_request valid_probe_result is_task_id is_thread_id
    is_principal_id is_digest_id is_action_id is_capability_id is_version is_reason_code is_word_id
    str_beq
stored_in_time = refl

kept_verification_replays_example :
    (verify_outcome digest plan_text service thread verifying (some []) ≡ done answer)
    × (verify_outcome digest plan_text again thread verifying (some []) ≡ done answer)
kept_verification_replays_example =
    kept_verification_replays digest plan_text service again thread verifying (some []) input
      request (kept request)
      (record {
        request = request;
        stored_at = record { at = 13; is_aware = true };
        created = false;
      })
      settings_fine refl reads_input nothing_replayed different_criteria refl makes_request refl
      (refl, refl, stored_in_time) refl (refl, refl, stored_in_time)

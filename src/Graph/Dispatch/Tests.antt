-- ===== src/Graph/Dispatch/Tests.antt =====
-- A plan of two actions, the second of which asks, from its pause to the dispatch; the theorems on
-- backend/src/jarvis/graph/approval.py, approval_resume.py and dispatch.py there.
use native.Mathlib.Decide.{ℕ_discrete}
use sriee.Base.{◌≡◌, refl, Bool, true, false, str_beq, Option, none, some, List, [], ◌∷◌}
use sriee.Text.{Str, codes, prefixed, after_prefix, repeated, is_hex, is_alnum, is_safe, is_word}
use sriee.Tasks.Service.{is_task_id}
use sriee.Graph.Patterns.{
  is_principal_id, headed, is_policy_id, is_version, is_capability_id, is_reason_code, version_from,
  capability_from, is_thread_id, is_action_id, is_digest_id, is_word_id, is_sha256,
  is_parameter_name, is_identifier_value, str_le,
}
use sriee.Graph.Plan.{PlanActionDraft, PlanDraft, PlanSuccessCriterion, str_value}
use sriee.Graph.Node.{Node, done}
use sriee.Graph.Policy.Contract.{PolicyDecision, PolicyDecisionKind, RiskTier}
use sriee.Graph.Policy.Decide.{sorted, sort_in}
use sriee.Graph.Policy.Evaluate.{answered}
use sriee.Graph.State.{
  PriorActionResult, ActionOutcome, PendingApproval, nothing, resolved, ApprovalOutcome,
  ApprovalResult, GraphState, Identity, identity_of, sorted_set, codes_of, decision_for,
}
use sriee.Graph.Approval.Request.{
  DigestPayload, decimal, decimal_digits, res_values, valid_preview, valid_pending_request,
  valid_pending_record, build_request, pending_request, preview_of, digest_action, digest_payload,
  approval_id,
}
use sriee.Graph.Approval.Pause.{
  PauseService, pause_for_approval, valid_pause_settings, pause_input, selected_action,
  pending_record, resume_candidate, valid_decisions, pending_request_discrete,
}
use sriee.Graph.Approval.Resume.{
  ResolutionRequest, Resolution, record_of, resume_approval, load_checkpoint, valid_checkpoint,
  same_identity, resolution_request, resolution_record, valid_resolution,
  resolution_request_discrete, approval_result,
}
use sriee.Graph.Dispatch.Contract.{
  DispatchRequest, DispatchSettings, valid_dispatch_settings, valid_dispatch_request,
  valid_policy_proof, valid_approval_proof, is_ordered_set, valid_identity, valid_argument,
}
use sriee.Graph.Dispatch.Action.{
  CanonicalPayload, requested_action, build_dispatch, approval_proof, proof_of, dispatch_request,
  canonical_payload, policy_proof, resource_values, is_approved,
}
use sriee.Graph.Dispatch.Input.{
  dispatch_input, valid_relations, select_action, first_ready, successes,
}
use sriee.Graph.Dispatch.Ready.{IsLicensed, dispatch-IsLicensed}
use sriee.Graph.Dispatch.Approved.{IsPaused}
use sriee.Graph.Dispatch.Authority.{approval_licenses_action, approval_licenses_nothing_else}

abbrev open_id : Str
open_id = codes "act_000000000000000000000001"

abbrev send_id : Str
send_id = codes "act_000000000000000000000002"

abbrev action : Str → Str → List Str → PlanActionDraft
action i capability dependencies = record {
  action_id = i;
  capability_id = capability;
  capability_version = codes "1.0.0";
  arguments = (record { name = codes "target"; value = str_value (codes "res_00000001") }) ∷ [];
  dependencies = dependencies;
  timeout_seconds = 30;
}

abbrev criterion : Str → PlanSuccessCriterion
criterion i = record {
  criterion_id = codes "crt_00000001";
  action_id = i;
  verification_code = codes "file_present";
}

abbrev plan : PlanDraft
plan = record {
  schema_version = codes "1.0";
  objective = codes "file_task";
  assumptions = [];
  actions =
      action open_id (codes "file.open") []
      ∷ action send_id (codes "mail.send") (open_id ∷ [])
      ∷ [];
  success_criteria = criterion open_id ∷ criterion send_id ∷ [];
  warnings = [];
}

abbrev decision : Str → PolicyDecisionKind → Bool → PolicyDecision
decision i kind fresh = record {
  decision_id = codes "pdc_000000000000000000000001";
  action_id = i;
  decision = kind;
  risk_tier = RiskTier.r2;
  reason_codes = codes "low_risk" ∷ [];
  policy_reference_id = codes "pol_00000001";
  policy_version = codes "1.0.0";
  grant_reference_id = none;
  requires_fresh_approval = fresh;
}

-- The file has been opened.
abbrev opened : PriorActionResult
opened = record {
  dispatch_id = codes "dsp_000000000000000000000001";
  action_id = open_id;
  receipt_id = codes "rcp_00000001";
  outcome = ActionOutcome.succeeded;
  completed_at = record { at = 5; is_aware = true };
}

abbrev thread : Str
thread = codes "thr_00000000000000000000000000000001"

abbrev waiting : GraphState
waiting = record {
  status = some (codes "awaiting_approval");
  task_id = some (codes "tsk_00000000000000000000000000000001");
  thread_id = some thread;
  actor_id = some (codes "ann");
  device_id = some (codes "laptop");
  plan = some plan;
  policy_decisions = some (
      decision open_id PolicyDecisionKind.allow false
      ∷ decision send_id PolicyDecisionKind.ask true
      ∷ []);
  action_results = some (opened ∷ []);
  pending_approval = nothing;
  revision_count = none;
}

abbrev digest : Str → Str
digest s = codes "00000000000000000000000000000000000000000000000000000000000000aa"

abbrev payload : DigestPayload → Str
payload p = p.action_id

-- The user approves at once.
abbrev service : PauseService
service = record {
  settings = record {
    expires_after_seconds = 600;
    max_interrupt_payload_bytes = 16384;
    max_resume_payload_bytes = 4096;
  };
  create_or_get = λ r. answered (record {
    request = r;
    event_id = codes "evt_00000001";
    issued_at = record { at = 1000000; is_aware = true };
    expires_at = record { at = 601000000; is_aware = true };
  });
  interrupt = λ x. some (record {
    bytes = some 300;
    candidate = some (record {
      approval_id = x.request.approval_id;
      action_digest = x.request.action_digest;
      is_approve = true;
    });
  });
  payload_bytes = λ x. 2000;
}

abbrev state_of : Node GraphState → GraphState
state_of (done s) = s
state_of _ = waiting

abbrev paused_state : GraphState
paused_state = state_of (pause_for_approval digest payload service waiting)

pause_runs : pause_for_approval digest payload service waiting ≡ done paused_state
unfolding pause_for_approval valid_pause_settings pause_input selected_action build_request
    pending_record resume_candidate identity_of valid_decisions sorted sort_in codes_of decision_for
    valid_pending_request valid_pending_record valid_preview decimal decimal_digits res_values
    sorted_set pending_request_discrete pending_request preview_of digest_action digest_payload
    approval_id is_task_id is_thread_id is_principal_id prefixed after_prefix repeated is_hex
    is_alnum is_safe is_word headed is_policy_id is_version version_from is_capability_id
    capability_from is_action_id is_digest_id is_word_id is_sha256 is_parameter_name is_reason_code
    str_le str_beq native.Mathlib.Decide.ℕ_discrete
pause_runs = refl

abbrev resolve : ResolutionRequest → Resolution
resolve q = record_of (record {
  request = q;
  resolution_id = codes "ars_000000000000000000000001";
  outcome = ApprovalOutcome.approved;
  decided_at = record { at = 2000000; is_aware = true };
})

abbrev resumed_state : GraphState
resumed_state = state_of (resume_approval resolve thread paused_state)

abbrev result_of : PendingApproval → Option ApprovalResult
result_of (resolved x) = some x
result_of _ = none

abbrev approval : ApprovalResult
approval = record {
  approval_id = codes "apr_000000000000000000000000";
  resolution_id = codes "ars_000000000000000000000001";
  thread_id = thread;
  action_id = send_id;
  action_digest = digest [];
  outcome = ApprovalOutcome.approved;
  decided_at = record { at = 2000000; is_aware = true };
}

abbrev executing : GraphState
executing = record waiting {
  status = some (codes "executing");
  pending_approval = resolved approval;
}

resume_runs : resume_approval resolve thread paused_state ≡ done executing
unfolding resume_approval load_checkpoint valid_checkpoint same_identity resolution_request
    resolution_record valid_resolution resolution_request_discrete approval_result
    pause_for_approval valid_pause_settings pause_input selected_action build_request pending_record
    resume_candidate identity_of valid_decisions sorted sort_in codes_of decision_for
    valid_pending_request valid_pending_record valid_preview decimal decimal_digits res_values
    sorted_set pending_request_discrete pending_request preview_of digest_action digest_payload
    approval_id is_task_id is_thread_id is_principal_id prefixed after_prefix repeated is_hex
    is_alnum is_safe is_word headed is_policy_id is_version version_from is_capability_id
    capability_from is_action_id is_digest_id is_word_id is_sha256 is_parameter_name is_reason_code
    str_le str_beq ℕ_discrete
resume_runs = refl

abbrev dispatch_settings : DispatchSettings
dispatch_settings = record {
  max_in_flight_actions = 8;
  max_in_flight_per_resource = 1;
  lease_grace_seconds = 30;
  max_request_bytes = 16384;
}

abbrev canonical : CanonicalPayload → Str
canonical p = p.action_id

abbrev identity : Identity
identity = record {
  task_id = codes "tsk_00000000000000000000000000000001";
  thread_id = thread;
  actor_id = codes "ann";
  device_id = codes "laptop";
}

abbrev request : DispatchRequest
request =
    dispatch_request digest payload canonical identity
      (action send_id (codes "mail.send") (open_id ∷ []))
      (decision send_id PolicyDecisionKind.ask true) (codes "file_present" ∷ [])
      (some (proof_of approval))

request_runs :
    requested_action digest payload canonical dispatch_settings (λ r. 900) thread executing
    ≡ done request
unfolding requested_action dispatch_input valid_relations select_action first_ready successes
    build_dispatch approval_proof proof_of dispatch_request canonical_payload policy_proof
    resource_values valid_dispatch_settings valid_dispatch_request valid_policy_proof
    valid_approval_proof is_ordered_set valid_identity valid_argument identity_of sorted sort_in
    codes_of decision_for sorted_set digest_action digest_payload is_task_id is_thread_id
    is_principal_id prefixed after_prefix repeated is_hex is_alnum is_safe is_word headed
    is_policy_id is_version version_from is_capability_id capability_from is_action_id is_digest_id
    is_word_id is_sha256 is_parameter_name is_reason_code str_le str_beq ℕ_discrete
    is_identifier_value
request_runs = refl

abbrev send : PlanActionDraft
send = action send_id (codes "mail.send") (open_id ∷ [])

abbrev send_decision : PolicyDecision
send_decision = decision send_id PolicyDecisionKind.ask true

licence_runs :
    approval_proof digest payload canonical identity send send_decision
      (codes "file_present" ∷ [])
      (some approval)
    ≡ done (some (proof_of approval))
unfolding approval_proof proof_of digest_action digest_payload str_beq
licence_runs = refl

dispatch-IsLicensed_example : IsLicensed digest payload canonical thread executing request
dispatch-IsLicensed_example =
    dispatch-IsLicensed digest payload canonical dispatch_settings (λ r. 900) thread executing
      request request_runs

approval_licenses_action_example :
    (p : IsPaused digest payload waiting paused_state) × (approval_proof digest payload canonical
        p.identity p.action p.decision
        (sorted str_le (codes_of p.action.action_id p.plan.success_criteria))
        (some approval)
      ≡ done (some (proof_of approval)))
approval_licenses_action_example =
    approval_licenses_action digest payload canonical service resolve thread waiting paused_state
      executing approval pause_runs resume_runs refl refl

approval_licenses_nothing_else_example :
    (p : IsPaused digest payload waiting paused_state) × (is_approved approval.outcome ≡ true)
    × (send_id ≡ p.action.action_id)
    × (digest_action digest payload identity send send_decision (codes "file_present" ∷ [])
        ≡ digest_action digest payload p.identity p.action p.decision
            (sorted str_le (codes_of p.action.action_id p.plan.success_criteria)))
approval_licenses_nothing_else_example =
    approval_licenses_nothing_else digest payload canonical service resolve thread waiting
      paused_state executing approval identity send send_decision (codes "file_present" ∷ [])
      (proof_of approval) pause_runs resume_runs refl licence_runs

-- ===== src/Graph/Dispatch/Action.antt =====
-- `dispatchAction` of backend/src/jarvis/graph/dispatch.py. SHA-256, the JSON of the two payloads, the
-- bytes of a request's JSON and the store are parameters.
use sriee.Base.{
  ℕ, ◌+◌, ◌*◌, Bool, true, false, not, ◌&&◌, Option, none, some, List, [], ◌∷◌, ◌++◌, ◌==◌, str_eq,
  nat_eq, leb, take, if◌then◌else◌,
}
use sriee.Text.{Str, codes}
use sriee.Graph.Patterns.{str_le, is_word_id}
use sriee.Graph.Plan.{PlanDraft, PlanActionDraft, PlanArgument, str_value}
use sriee.Graph.Node.{Node, refused, validation_error, key_error, done, ◌>>=◌, ◌>>◌, require, same}
use sriee.Graph.Policy.Contract.{PolicyDecision, is_ask, is_allow}
use sriee.Graph.Policy.Decide.{sorted}
use sriee.Graph.State.{
  ApprovalOutcome, approved, ApprovalResult, GraphState, Identity, sorted_set, codes_of,
  sorted_arguments, decision_for,
}
use sriee.Graph.Approval.Request.{DigestPayload, digest_action}
use sriee.Graph.Dispatch.Contract.{
  PolicyProof, ApprovalProof, DispatchRequest, DispatchLimits, DispatchSettings, DispatchRecord,
  valid_dispatch_settings, valid_dispatch_request, valid_dispatch_record, dispatch_request_discrete,
}
use sriee.Graph.Dispatch.Input.{contract, dispatch_input, is_empty, valid_relations, select_action}

-- The payload of the idempotency key (`_canonical_payload`).
pub record CanonicalPayload : Type 0 where
  pub identity : Identity
  pub action_id : Str
  pub capability_id : Str
  pub capability_version : Str
  pub arguments : List PlanArgument
  pub dependencies : List Str
  pub verification_codes : List Str
  pub timeout_seconds : ℕ
  pub policy : PolicyProof
  pub approval : Option ApprovalProof

abbrev pub is_approved : ApprovalOutcome → Bool
is_approved approved = true
is_approved _ = false

unfoldable pub proof_of : ApprovalResult → ApprovalProof
proof_of a = record {
  approval_id = a.approval_id;
  resolution_id = a.resolution_id;
  action_digest = a.action_digest;
  decided_at = a.decided_at;
}

unfoldable pub policy_proof : PolicyDecision → PolicyProof
policy_proof d = record {
  decision_id = d.decision_id;
  decision = d.decision;
  risk_tier = d.risk_tier;
  policy_reference_id = d.policy_reference_id;
  policy_version = d.policy_version;
  grant_reference_id = d.grant_reference_id;
}

-- The texts among the values of the arguments that are identifiers of resources.
unfoldable pub resource_values : List PlanArgument → List Str
resource_values [] = []
resource_values (x ∷ xs) =
    let rest = resource_values xs in
    elim x.value [ str_value v ↦ if is_word_id (codes "res_") v then v ∷ rest else rest | _ ↦ rest ]

-- `ValidationError` is caught around `_build_request`.
abbrev pub or_contract : Node DispatchRequest → Node DispatchRequest
or_contract validation_error = refused contract
or_contract m = m

-- What the store does: it raises `ActionDispatchCapacityError` or something else, or returns something
-- that is no `ActionDispatchRecord`, or a record.
pub data Reservation : Type 0 where
  exhausted failing wrong_type : Reservation
  record_of : DispatchRecord → Reservation

module _ (sha256 : Str → Str) (json : DigestPayload → Str)
    (canonical_json : CanonicalPayload → Str) where
  -- `_approval_proof`
  unfoldable pub approval_proof :
      Identity
      → PlanActionDraft
      → PolicyDecision
      → List Str
      → Option ApprovalResult
      → Node (Option ApprovalProof)
  unfolding digest_action proof_of
  approval_proof i a d verification_codes approval =
      if is_allow d.decision then done none else elim approval [
        | none ↦ refused (codes "action_dispatch_approval_invalid")
        | some x ↦
            if is_ask d.decision
              && (is_approved x.outcome
                  && (x.thread_id == i.thread_id
                      && (x.action_id == a.action_id
                          && x.action_digest
                            == digest_action sha256 json i a d verification_codes)))
            then done (some (proof_of x))
            else refused (codes "action_dispatch_approval_invalid")
      ]

  unfoldable pub canonical_payload :
      Identity
      → PlanActionDraft
      → PolicyDecision
      → List Str
      → Option ApprovalProof
      → CanonicalPayload
  unfolding policy_proof sorted
  canonical_payload i a d verification_codes proof = record {
    identity = i;
    action_id = a.action_id;
    capability_id = a.capability_id;
    capability_version = a.capability_version;
    arguments = sorted_arguments a.arguments;
    dependencies = sorted str_le a.dependencies;
    verification_codes = verification_codes;
    timeout_seconds = a.timeout_seconds;
    policy = policy_proof d;
    approval = proof;
  }

  -- The request for an action, before pydantic validates it; `_stable_dispatch_identity` gives the
  -- first two fields.
  unfoldable pub dispatch_request :
      Identity
      → PlanActionDraft
      → PolicyDecision
      → List Str
      → Option ApprovalProof
      → DispatchRequest
  unfolding canonical_payload policy_proof resource_values sorted sorted_set
  dispatch_request i a d verification_codes proof = record {
    dispatch_id = codes "dsp_" ++ take 24 (sha256 (i.task_id ++ codes ":" ++ a.action_id));
    idempotency_key = sha256 (canonical_json (canonical_payload i a d verification_codes proof));
    identity = i;
    action_id = a.action_id;
    capability_id = a.capability_id;
    capability_version = a.capability_version;
    arguments = sorted_arguments a.arguments;
    resource_ids = sorted_set (resource_values a.arguments);
    dependency_action_ids = sorted str_le a.dependencies;
    verification_codes = verification_codes;
    timeout_seconds = a.timeout_seconds;
    policy = policy_proof d;
    approval = proof;
  }

  abbrev validated : DispatchRequest → Node DispatchRequest
  validated r = if valid_dispatch_request r then done r else validation_error

  -- `_build_request`
  unfoldable pub build_dispatch :
      Identity
      → PlanDraft
      → PlanActionDraft
      → PolicyDecision
      → Option ApprovalResult
      → Node DispatchRequest
  unfolding approval_proof dispatch_request codes_of sorted
  build_dispatch i plan a d approval =
      let verification_codes = sorted str_le (codes_of a.action_id plan.success_criteria) in
      do
        require (not (is_empty verification_codes)) contract
        proof ← approval_proof i a d verification_codes approval
        validated (dispatch_request i a d verification_codes proof)

  -- `dispatchAction` up to the call of the store: the request that is handed over.
  unfoldable pub requested_action :
      DispatchSettings → (DispatchRequest → ℕ) → Str → GraphState → Node DispatchRequest
  unfolding dispatch_input valid_relations select_action build_dispatch decision_for
  requested_action settings request_bytes runtime_thread_id s = do
    require (valid_dispatch_settings settings) (codes "action_dispatch_settings_incompatible")
    input ← dispatch_input runtime_thread_id s
    require (valid_relations input.plan input.decisions input.results) contract
    a ← select_action input.plan input.results
    d ← elim (decision_for a.action_id input.decisions) [ none ↦ key_error | some d ↦ done d ]
    r ← or_contract (build_dispatch input.identity input.plan a d input.approval)
    require (leb (request_bytes r) settings.max_request_bytes)
        (codes "action_dispatch_request_too_large")
    done r

-- `_validate_record`
unfoldable pub dispatch_record :
    DispatchSettings → DispatchRequest → Reservation → Node DispatchRecord
unfolding valid_dispatch_record dispatch_request_discrete
dispatch_record settings r exhausted = refused (codes "action_dispatch_capacity_exhausted")
dispatch_record settings r failing = refused (codes "action_dispatch_unavailable")
dispatch_record settings r wrong_type = refused (codes "action_dispatch_record_invalid")
dispatch_record settings r (record_of x) = do
  require (valid_dispatch_record x) (codes "action_dispatch_record_invalid")
  require
      (same dispatch_request_discrete x.request r
        && x.lease_expires_at.at
          == x.queued_at.at + (r.timeout_seconds + settings.lease_grace_seconds) * 1000000)
      (codes "action_dispatch_record_conflict")
  done x

abbrev pub limits_of : DispatchSettings → DispatchLimits
limits_of s = record {
  max_in_flight_actions = s.max_in_flight_actions;
  max_in_flight_per_resource = s.max_in_flight_per_resource;
}

module _ (sha256 : Str → Str) (json : DigestPayload → Str)
    (canonical_json : CanonicalPayload → Str) where
  -- `dispatchAction`: the store reserves capacity, and the state goes on executing.
  unfoldable pub dispatch_action :
      DispatchSettings
      → (DispatchRequest → ℕ)
      → (DispatchRequest → DispatchLimits → Reservation)
      → Str
      → GraphState
      → Node GraphState
  unfolding requested_action dispatch_record
  dispatch_action settings request_bytes reserve runtime_thread_id s = do
    r ← requested_action sha256 json canonical_json settings request_bytes runtime_thread_id s
    x ← dispatch_record settings r (reserve r (limits_of settings))
    done (record s { status = some (codes "executing") })

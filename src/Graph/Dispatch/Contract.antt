-- ===== src/Graph/Dispatch/Contract.antt =====
-- The contracts of backend/src/jarvis/graph/dispatch.py and their validators.
use native.Mathlib.Decide.{ℕ_discrete}
use sriee.Base.{
  ℕ, Bool, true, not, ◌&&◌, Option, none, some, List, nat_eq, leb, ltb, length, map, all,
}
use sriee.Text.{Str, codes}
use sriee.Tasks.Service.{is_task_id}
use sriee.Graph.Patterns.{
  str_le, is_principal_id, is_thread_id, is_digest_id, is_word_id, is_sha256, is_parameter_name,
  is_identifier_value, is_capability_id, is_version, is_action_id, is_policy_id, is_grant_id,
  is_reason_code,
}
use sriee.Graph.Plan.{PlanArgument, ScalarValue, str_value}
use sriee.Graph.Node.{same, texts_discrete, Moment}
use sriee.Graph.Policy.Contract.{
  PolicyDecisionKind, RiskTier, distinct, is_ask, is_allow, is_r4, is_deny,
}
use sriee.Graph.Policy.Decide.{sorted}
use sriee.Graph.State.{Identity}

-- `ActionPolicyProof`
pub record PolicyProof : Type 0 where
  pub decision_id : Str
  pub decision : PolicyDecisionKind
  pub risk_tier : RiskTier
  pub policy_reference_id : Str
  pub policy_version : Str
  pub grant_reference_id : Option Str

-- `ActionApprovalProof`
pub record ApprovalProof : Type 0 where
  pub approval_id : Str
  pub resolution_id : Str
  pub action_digest : Str
  pub decided_at : Moment

-- `ActionDispatchRequest`; an argument is a `PlanArgument`, and `type` and `version` are constants.
pub record DispatchRequest : Type 0 where
  pub dispatch_id : Str
  pub idempotency_key : Str
  pub identity : Identity
  pub action_id : Str
  pub capability_id : Str
  pub capability_version : Str
  pub arguments : List PlanArgument
  pub resource_ids : List Str
  pub dependency_action_ids : List Str
  pub verification_codes : List Str
  pub timeout_seconds : ℕ
  pub policy : PolicyProof
  pub approval : Option ApprovalProof

-- `ActionRequestArgument.validate_string_value` and the pattern of its name.
abbrev valid_value : ScalarValue → Bool
valid_value (str_value v) = is_identifier_value v
valid_value _ = true

unfoldable pub valid_argument : PlanArgument → Bool
valid_argument x = is_parameter_name x.name && valid_value x.value

abbrev valid_grant : Option Str → Bool
valid_grant none = true
valid_grant (some g) = is_grant_id g

-- The field constraints of `ActionPolicyProof`: a decision "allow" or "ask", and a risk below R4.
unfoldable pub valid_policy_proof : PolicyProof → Bool
valid_policy_proof p =
    (is_digest_id (codes "pdc_") p.decision_id
      && (not (is_deny p.decision) && not (is_r4 p.risk_tier)))
    && ((is_policy_id p.policy_reference_id && is_version p.policy_version)
        && valid_grant p.grant_reference_id)

-- Those of `ActionApprovalProof`.
unfoldable pub valid_approval_proof : ApprovalProof → Bool
valid_approval_proof p =
    (is_digest_id (codes "apr_") p.approval_id && is_digest_id (codes "ars_") p.resolution_id)
    && (is_sha256 p.action_digest && p.decided_at.is_aware)

-- `len(xs) == len(set(xs)) and tuple(xs) == tuple(sorted(xs))`
unfoldable pub is_ordered_set : List Str → Bool
unfolding sorted texts_discrete
is_ordered_set xs = distinct xs && same texts_discrete xs (sorted str_le xs)

-- An approval goes with a decision that asks, and with no other.
abbrev pub fits_decision : PolicyDecisionKind → Option ApprovalProof → Bool
fits_decision d none = not (is_ask d)
fits_decision d (some p) = not (is_allow d) && valid_approval_proof p

-- The identifiers of the run.
unfoldable pub valid_identity : Identity → Bool
valid_identity i =
    (is_task_id i.task_id && is_thread_id i.thread_id)
    && (is_principal_id i.actor_id && is_principal_id i.device_id)

-- The field constraints and `validate_request_members`.
unfoldable pub valid_dispatch_request : DispatchRequest → Bool
unfolding valid_identity valid_argument valid_policy_proof valid_approval_proof is_ordered_set
valid_dispatch_request r =
    (is_digest_id (codes "dsp_") r.dispatch_id && is_sha256 r.idempotency_key)
    && ((valid_identity r.identity
          && (is_action_id r.action_id
              && (is_capability_id r.capability_id && is_version r.capability_version)))
        && (((leb (length r.arguments) 12 && all valid_argument r.arguments)
              && (leb (length r.resource_ids) 12
                  && (leb (length r.dependency_action_ids) 8
                      && ((leb 1 (length r.verification_codes)
                            && leb (length r.verification_codes) 16)
                          && (leb 1 r.timeout_seconds && leb r.timeout_seconds 600)))))
            && ((valid_policy_proof r.policy && is_ordered_set (map (λ x. x.name) r.arguments))
                && ((is_ordered_set r.resource_ids
                      && all (is_word_id (codes "res_")) r.resource_ids)
                    && (is_ordered_set r.dependency_action_ids
                        && ((is_ordered_set r.verification_codes
                              && all is_reason_code r.verification_codes)
                            && fits_decision r.policy.decision r.approval))))))

-- `ActionDispatchLimits`
pub record DispatchLimits : Type 0 where
  pub max_in_flight_actions : ℕ
  pub max_in_flight_per_resource : ℕ

-- `ActionDispatchSettings`
pub record DispatchSettings : Type 0 where
  pub max_in_flight_actions : ℕ
  pub max_in_flight_per_resource : ℕ
  pub lease_grace_seconds : ℕ
  pub max_request_bytes : ℕ

-- The test of `_validate_settings`.
unfoldable pub valid_dispatch_settings : DispatchSettings → Bool
valid_dispatch_settings s =
    (leb 1 s.max_in_flight_actions && leb s.max_in_flight_actions 64)
    && ((leb 1 s.max_in_flight_per_resource && leb s.max_in_flight_per_resource 8)
        && (leb s.max_in_flight_per_resource s.max_in_flight_actions
            && (leb s.lease_grace_seconds 300
                && (leb 1024 s.max_request_bytes && leb s.max_request_bytes 65536))))

-- `ActionDispatchRecord`; its status is a constant.
pub record DispatchRecord : Type 0 where
  pub request : DispatchRequest
  pub event_id : Str
  pub outbox_id : Str
  pub lease_id : Str
  pub queued_at : Moment
  pub lease_expires_at : Moment
  pub reserved_resource_ids : List Str

-- The field constraints of `ActionDispatchRecord` and `validate_record`.
unfoldable pub valid_dispatch_record : DispatchRecord → Bool
unfolding valid_dispatch_request texts_discrete
valid_dispatch_record r =
    (valid_dispatch_request r.request
      && (is_word_id (codes "evt_") r.event_id
          && (is_word_id (codes "out_") r.outbox_id && is_word_id (codes "lse_") r.lease_id)))
    && ((r.queued_at.is_aware && r.lease_expires_at.is_aware)
        && (ltb r.queued_at.at r.lease_expires_at.at
            && same texts_discrete r.reserved_resource_ids r.request.resource_ids))

unfoldable pub dispatch_request_discrete : Discrete DispatchRequest
dispatch_request_discrete = hlevel ℕ_discrete

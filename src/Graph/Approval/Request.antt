-- ===== src/Graph/Approval/Request.antt =====
-- The exact action that is to be approved, its digest, and the request that is stored:
-- backend/src/jarvis/graph/approval.py. SHA-256 in hexadecimal and the canonical JSON of the digest's
-- payload are parameters.
use sriee.Base.{
  ℕ, zero, suc, ◌+◌, ◌*◌, Bool, ◌&&◌, List, [], ◌∷◌, ◌++◌, ◌==◌, str_eq, nat_eq, leb, ltb, length,
  map, all, take, if◌then◌else◌,
}
use Prim.Native.Nat.{◌/◌, ◌%◌}
use sriee.Text.{Str, codes, after_prefix}
use sriee.Dict.{is_some}
use sriee.Tasks.Service.{is_task_id}
use sriee.Graph.Patterns.{
  str_le, is_principal_id, is_thread_id, is_digest_id, is_word_id, is_sha256, is_parameter_name,
  is_capability_id, is_version, is_action_id, is_policy_id,
}
use sriee.Graph.Plan.{PlanDraft, PlanActionDraft, PlanArgument, str_value}
use sriee.Graph.Node.{Node, validation_error, refused, done}
use sriee.Graph.Policy.Contract.{PolicyDecision, PolicyDecisionKind, RiskTier, distinct}
use sriee.Graph.Policy.Decide.{sorted}
use sriee.Graph.State.{
  ActionPreview, PendingRequest, PendingRecord, Identity, codes_of, sorted_arguments, sorted_set,
}

-- The payload of `_digest_action`; the version of the digest is a constant.
pub record DigestPayload : Type 0 where
  pub identity : Identity
  pub action_id : Str
  pub capability_id : Str
  pub capability_version : Str
  pub arguments : List PlanArgument
  pub dependencies : List Str
  pub timeout_seconds : ℕ
  pub verification_codes : List Str
  pub decision_id : Str
  pub decision : PolicyDecisionKind
  pub risk_tier : RiskTier
  pub policy_reference_id : Str
  pub policy_version : Str

unfoldable pub digest_payload :
    Identity → PlanActionDraft → PolicyDecision → List Str → DigestPayload
unfolding sorted
digest_payload i a d verification_codes = record {
  identity = i;
  action_id = a.action_id;
  capability_id = a.capability_id;
  capability_version = a.capability_version;
  arguments = sorted_arguments a.arguments;
  dependencies = sorted str_le a.dependencies;
  timeout_seconds = a.timeout_seconds;
  verification_codes = sorted str_le verification_codes;
  decision_id = d.decision_id;
  decision = d.decision;
  risk_tier = d.risk_tier;
  policy_reference_id = d.policy_reference_id;
  policy_version = d.policy_version;
}

-- The decimal digits of a number.
unfoldable pub decimal_digits : ℕ → ℕ → Str → Str
decimal_digits zero n acc = acc
decimal_digits (suc fuel) n acc =
    let more = decimal_digits fuel (n / 10) ((b'0' + n % 10) ∷ acc) in
    if ltb n 10 then (b'0' + n) ∷ acc else more

-- `n + 1` rounds are enough for `n`.
unfoldable pub decimal : ℕ → Str
unfolding decimal_digits
decimal n = decimal_digits (suc n) n []

-- The texts among the values of the arguments that begin with "res_".
unfoldable pub res_values : List PlanArgument → List Str
unfolding after_prefix
res_values [] = []
res_values (x ∷ xs) =
    let rest = res_values xs in
    elim x.value [
      | str_value v ↦ if is_some (after_prefix (codes "res_") v) then v ∷ rest else rest
      | _ ↦ rest
    ]

abbrev bounded : ℕ → ℕ → ℕ → Bool
bounded lo hi n = leb lo n && leb n hi

-- The field constraints of `ApprovalActionPreview` and `validate_preview_members`.
unfoldable pub valid_preview : ActionPreview → Bool
valid_preview p =
    (bounded 1 300 (length p.summary)
      && (is_action_id p.action_id
          && (is_capability_id p.capability_id && is_version p.capability_version)))
    && (((leb (length p.parameters) 12 && all (λ x. is_parameter_name x.name) p.parameters)
          && (leb (length p.resource_ids) 12 && leb (length p.dependency_action_ids) 8))
        && ((bounded 1 16 (length p.verification_codes)
              && (bounded 1 600 p.timeout_seconds && bounded 1 40 (length p.reason_codes)))
            && ((is_policy_id p.policy_reference_id
                  && (is_version p.policy_version && is_sha256 p.action_digest))
                && ((distinct (map (λ x. x.name) p.parameters)
                      && (distinct p.resource_ids && distinct p.dependency_action_ids))
                    && (distinct p.verification_codes
                        && (distinct p.reason_codes
                            && all (is_word_id (codes "res_")) p.resource_ids))))))

-- The field constraints of `PendingApprovalRequest`.
unfoldable pub valid_pending_request : PendingRequest → Bool
unfolding valid_preview
valid_pending_request r =
    (is_digest_id (codes "apr_") r.approval_id
      && (is_task_id r.task_id && is_thread_id r.thread_id))
    && ((is_principal_id r.actor_id && is_principal_id r.device_id)
        && ((is_action_id r.action_id
              && (is_sha256 r.action_digest && is_digest_id (codes "pdc_") r.decision_id))
            && ((is_policy_id r.policy_reference_id && is_version r.policy_version)
                && (valid_preview r.preview && bounded 30 3600 r.expires_after_seconds))))

-- The field constraints of `PendingApprovalRecord` and `validate_times`.
unfoldable pub valid_pending_record : PendingRecord → Bool
unfolding valid_pending_request
valid_pending_record r =
    (valid_pending_request r.request && is_word_id (codes "evt_") r.event_id)
    && ((r.issued_at.is_aware && r.expires_at.is_aware)
        && (ltb r.issued_at.at r.expires_at.at
            && r.expires_at.at == r.issued_at.at + r.request.expires_after_seconds * 1000000))

module _ (sha256 : Str → Str) (json : DigestPayload → Str) where
  -- `_digest_action`
  unfoldable pub digest_action : Identity → PlanActionDraft → PolicyDecision → List Str → Str
  unfolding digest_payload
  digest_action i a d verification_codes = sha256 (json (digest_payload i a d verification_codes))

  -- `_approval_id`
  unfoldable pub approval_id : Str → Str → Str → Str
  approval_id task_id action_id action_digest =
      codes "apr_"
      ++ take 24 (sha256 (task_id ++ codes ":" ++ action_id ++ codes ":" ++ action_digest))

  unfoldable pub preview_of : PlanActionDraft → PolicyDecision → List Str → Str → ActionPreview
  unfolding sorted sorted_set res_values decimal
  preview_of a d verification_codes action_digest =
      let resources = sorted_set (res_values a.arguments) in
      record {
        summary =
            codes "Approve "
            ++ a.capability_id
            ++ codes " for "
            ++ decimal (length resources)
            ++ codes " registered resource(s).";
        action_id = a.action_id;
        capability_id = a.capability_id;
        capability_version = a.capability_version;
        parameters = sorted_arguments a.arguments;
        resource_ids = resources;
        dependency_action_ids = sorted str_le a.dependencies;
        verification_codes = verification_codes;
        timeout_seconds = a.timeout_seconds;
        risk_tier = d.risk_tier;
        reason_codes = d.reason_codes;
        policy_reference_id = d.policy_reference_id;
        policy_version = d.policy_version;
        action_digest = action_digest;
      }

  -- The request for an action, before pydantic validates it.
  unfoldable pub pending_request :
      ℕ → Identity → PlanActionDraft → PolicyDecision → List Str → PendingRequest
  unfolding digest_action approval_id preview_of
  pending_request expires_after_seconds i a d verification_codes =
      let digest = digest_action i a d verification_codes in
      record {
        approval_id = approval_id i.task_id a.action_id digest;
        task_id = i.task_id;
        thread_id = i.thread_id;
        actor_id = i.actor_id;
        device_id = i.device_id;
        action_id = a.action_id;
        action_digest = digest;
        decision_id = d.decision_id;
        risk_tier = d.risk_tier;
        policy_reference_id = d.policy_reference_id;
        policy_version = d.policy_version;
        preview = preview_of a d verification_codes digest;
        expires_after_seconds = expires_after_seconds;
      }

  abbrev validated : PendingRequest → Node PendingRequest
  validated r = if valid_pending_request r then done r else validation_error

  abbrev pub requested :
      ℕ → Identity → PlanActionDraft → PolicyDecision → List Str → Node PendingRequest
  requested expires_after_seconds i a d [] = refused (codes "approval_pause_contract_invalid")
  requested expires_after_seconds i a d (c ∷ cs) =
      validated (pending_request expires_after_seconds i a d (c ∷ cs))

  -- `_build_request`
  unfoldable pub build_request :
      ℕ → Identity → PlanDraft → PlanActionDraft → PolicyDecision → Node PendingRequest
  unfolding pending_request valid_pending_request codes_of sorted
  build_request expires_after_seconds i plan a d =
      requested expires_after_seconds i a d
        (sorted str_le (codes_of a.action_id plan.success_criteria))

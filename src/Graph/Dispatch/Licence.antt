-- ===== src/Graph/Dispatch/Licence.antt =====
-- What a request for an action rests on (backend/src/jarvis/graph/dispatch.py).
use sriee.Base.{
  ℕ, ◌≡◌, refl, Bool, true, false, not, Option, none, some, List, ◌==◌, str_eq, leb, if◌then◌else◌,
  if_intro, sym, ap, ◌∙◌,
}
use sriee.Text.{Str, codes}
use sriee.Graph.Patterns.{str_le, is_thread_id}
use sriee.Graph.Plan.{PlanDraft, PlanActionDraft}
use sriee.Graph.Node.{
  Node, refused, validation_error, key_error, interrupted, done, ◌>>=◌, >>=-eq-done,
  require-eq-done, some_or-eq-done, require-done,
}
use sriee.Graph.Policy.Contract.{PolicyDecision}
use sriee.Graph.Policy.Decide.{sorted}
use sriee.Graph.State.{
  PriorActionResult, ApprovalResult, GraphState, Identity, identity_of, has_status, codes_of,
  decision_for,
}
use sriee.Graph.Approval.Request.{DigestPayload}
use sriee.Graph.Dispatch.Contract.{
  ApprovalProof, DispatchRequest, DispatchSettings, valid_dispatch_settings, valid_dispatch_request,
}
use sriee.Graph.Dispatch.Action.{
  CanonicalPayload, or_contract, approval_proof, dispatch_request, build_dispatch, requested_action,
}
use sriee.Graph.Dispatch.Input.{
  DispatchInput, dispatch_input, approval_of, valid_relations, first_ready, select_action, is_empty,
}

-- What has been read of the state.
pub record IsRead (thread : Str) (s : GraphState) (input : DispatchInput) : Type 0 where
  pub executing : has_status (codes "executing") s ≡ true
  pub identified : identity_of s ≡ some input.identity
  pub own_thread : (thread == input.identity.thread_id) ≡ true
  pub planned : s.plan ≡ some input.plan
  pub decided : s.policy_decisions ≡ some input.decisions
  pub resulted : s.action_results ≡ some input.results
  pub pending : approval_of s.pending_approval ≡ done input.approval

dispatch_input-IsRead :
    (thread : Str) (s : GraphState) (input : DispatchInput)
    → dispatch_input thread s ≡ done input
    → IsRead thread s input
unfolding dispatch_input
dispatch_input-IsRead thread s input h =
    let a = require-eq-done (has_status (codes "executing") s) _ _ h in
    let b = some_or-eq-done _ (identity_of s) _ a.1 in
    let c = require-eq-done (is_thread_id thread) _ _ b.2 in
    let d = require-eq-done (thread == b.0.thread_id) _ _ c.1 in
    let e = some_or-eq-done _ s.plan _ d.1 in
    let f = some_or-eq-done _ s.policy_decisions _ e.2 in
    let g = some_or-eq-done _ s.action_results _ f.2 in
    let k = >>=-eq-done (approval_of s.pending_approval) _ g.2 in
    let l = require-eq-done (e.0.schema_version == codes "1.0") _ _ k.2 in
    let same : record { identity = b.0; plan = e.0; decisions = f.0; results = g.0; approval = k.0 }
        ≡ input =
      cc in
    rw (sym same) (record {
      executing = a.0;
      identified = b.1;
      own_thread = d.0;
      planned = e.1;
      decided = f.1;
      resulted = g.1;
      pending = k.1;
    })

chosen-eq-done :
    (o : Option PlanActionDraft) (b : Bool) (e g : Str) (a : PlanActionDraft)
    → (elim o [ some x ↦ done x | none ↦ if b then refused e else refused g ]) ≡ done a
    → o ≡ some a
chosen-eq-done (some x) b e g a h = cc
chosen-eq-done none true e g a h = cc
chosen-eq-done none false e g a h = cc

select_action-eq-done :
    (plan : PlanDraft) (rs : List PriorActionResult) (a : PlanActionDraft)
    → select_action plan rs ≡ done a
    → first_ready rs plan.actions ≡ some a
unfolding select_action
select_action-eq-done plan rs a h = chosen-eq-done (first_ready rs plan.actions) _ _ _ a h

or_contract-eq-done :
    (m : Node DispatchRequest) (r : DispatchRequest) → or_contract m ≡ done r → m ≡ done r
or_contract-eq-done (done x) r h = h
or_contract-eq-done (refused e) r h = h
or_contract-eq-done key_error r h = h
or_contract-eq-done interrupted r h = h
or_contract-eq-done validation_error r h = cc

decision-eq-done :
    (o : Option PolicyDecision) (f : PolicyDecision → Node DispatchRequest) (r : DispatchRequest)
    → ((elim o [ none ↦ key_error | some d ↦ done d ]) >>= f) ≡ done r
    → (d : PolicyDecision) × (o ≡ some d) × (f d ≡ done r)
decision-eq-done none f r h = cc
decision-eq-done (some d) f r h = (d, refl, h)

-- What a request is made from.
module _ (sha256 : Str → Str) (json : DigestPayload → Str)
    (canonical_json : CanonicalPayload → Str) where
  pub record IsMade (thread : Str) (s : GraphState) (r : DispatchRequest) : Type 0 where
    pub input : DispatchInput
    pub read : IsRead thread s input
    pub related : valid_relations input.plan input.decisions input.results ≡ true
    pub action : PlanActionDraft
    pub chosen : first_ready input.results input.plan.actions ≡ some action
    pub decision : PolicyDecision
    pub decided : decision_for action.action_id input.decisions ≡ some decision
    pub proof : Option ApprovalProof
    pub licensed :
        approval_proof sha256 json canonical_json input.identity action decision
          (sorted str_le (codes_of action.action_id input.plan.success_criteria))
          input.approval
        ≡ done proof
    pub made :
        dispatch_request sha256 json canonical_json input.identity action decision
          (sorted str_le (codes_of action.action_id input.plan.success_criteria))
          proof
        ≡ r
    pub valid : valid_dispatch_request r ≡ true

  validated-eq-done :
      (x r : DispatchRequest)
      → (if valid_dispatch_request x then done x else validation_error) ≡ done r
      → (x ≡ r) × (valid_dispatch_request r ≡ true)
  validated-eq-done x r =
      if_intro
        (λ (m : Node DispatchRequest). m ≡ done r → (x ≡ r) × (valid_dispatch_request r ≡ true))
        (valid_dispatch_request x) (λ t h. (cc, cc)) (λ f h. cc)

  abbrev codes_for : PlanDraft → PlanActionDraft → List Str
  codes_for plan a = sorted str_le (codes_of a.action_id plan.success_criteria)

  build_dispatch-eq-done :
      (i : Identity) (plan : PlanDraft) (a : PlanActionDraft) (d : PolicyDecision)
      (x : Option ApprovalResult) (r : DispatchRequest)
      → build_dispatch sha256 json canonical_json i plan a d x ≡ done r
      → (proof : Option ApprovalProof) × (approval_proof sha256 json canonical_json i a d
            (codes_for plan a)
            x
          ≡ done proof)
        × (dispatch_request sha256 json canonical_json i a d (codes_for plan a) proof ≡ r)
        × (valid_dispatch_request r ≡ true)
  unfolding build_dispatch
  build_dispatch-eq-done i plan a d x r h =
      let k = require-eq-done (not (is_empty (codes_for plan a))) _ _ h in
      let l =
        >>=-eq-done (approval_proof sha256 json canonical_json i a d (codes_for plan a) x) _ k.1 in
      let v =
        validated-eq-done (dispatch_request sha256 json canonical_json i a d (codes_for plan a) l.0)
          r l.2 in
      (l.0, l.1, v.0, v.1)

  pub requested_action-IsMade :
      (settings : DispatchSettings) (request_bytes : DispatchRequest → ℕ) (thread : Str)
      (s : GraphState) (r : DispatchRequest)
      → requested_action sha256 json canonical_json settings request_bytes thread s ≡ done r
      → IsMade thread s r
  unfolding requested_action
  requested_action-IsMade settings request_bytes thread s r h =
      let a = require-eq-done (valid_dispatch_settings settings) _ _ h in
      let b = >>=-eq-done (dispatch_input thread s) _ a.1 in
      let c = require-eq-done (valid_relations b.0.plan b.0.decisions b.0.results) _ _ b.2 in
      let d = >>=-eq-done (select_action b.0.plan b.0.results) _ c.1 in
      let e = decision-eq-done (decision_for d.0.action_id b.0.decisions) _ r d.2 in
      let made =
        build_dispatch sha256 json canonical_json b.0.identity b.0.plan d.0 e.0 b.0.approval in
      let f = >>=-eq-done (or_contract made) _ e.2 in
      let g =
        require-done (leb (request_bytes f.0) settings.max_request_bytes)
          (codes "action_dispatch_request_too_large") f.0 f.2 in
      let l =
        build_dispatch-eq-done b.0.identity b.0.plan d.0 e.0 b.0.approval f.0
          (or_contract-eq-done made f.0 f.1) in
      record {
        input = b.0;
        read = dispatch_input-IsRead thread s b.0 b.1;
        related = c.0;
        action = d.0;
        chosen = select_action-eq-done b.0.plan b.0.results d.0 d.1;
        decision = e.0;
        decided = e.1;
        proof = l.0;
        licensed = l.1;
        made = l.2 ∙ g.1;
        valid = ap valid_dispatch_request (sym g.1) ∙ l.3;
      }

-- ===== src/Graph/Dispatch/Authority.antt =====
-- What an approval of the user licenses: backend/src/jarvis/graph/approval.py, approval_resume.py and
-- dispatch.py.
use sriee.Base.{
  ◌≡◌, inl, inr, refl, true, false, some, List, str_eq, str_beq_iff, sym, ap, ◌∙◌, some_injective,
}
use sriee.Text.{Str}
use sriee.Graph.Patterns.{str_le}
use sriee.Graph.Plan.{PlanDraft, PlanActionDraft}
use sriee.Graph.Node.{done}
use sriee.Graph.Policy.Contract.{
  PolicyDecision, PolicyDecisionKind, allow, ask, deny, is_ask, is_allow,
}
use sriee.Graph.Policy.Decide.{sorted}
use sriee.Graph.State.{PendingRequest, resolved, ApprovalResult, GraphState, Identity, codes_of}
use sriee.Graph.Approval.Request.{DigestPayload, digest_action, pending_request}
use sriee.Graph.Approval.Pause.{PauseService, pause_for_approval}
use sriee.Graph.Approval.Resume.{
  ResolutionRequest, Resolution, resume_approval, resolution_request, approval_result,
}
use sriee.Graph.Dispatch.Contract.{ApprovalProof}
use sriee.Graph.Dispatch.Action.{CanonicalPayload, proof_of, is_approved, approval_proof}
use sriee.Graph.Dispatch.Approved.{
  IsPaused, pause_for_approval-IsPaused, resume_approval-resolves, selected_action-asks,
}
use sriee.Graph.Dispatch.Ready.{approval_proof-eq-done}

resolved_inj : {x y : ApprovalResult} → resolved x ≡ resolved y → x ≡ y
resolved_inj h = cc

asks-not-allows : (k : PolicyDecisionKind) → is_ask k ≡ true → is_allow k ≡ false
asks-not-allows allow h = cc
asks-not-allows ask h = refl
asks-not-allows deny h = refl

-- The result is about the action that was paused for.
pub record IsAbout (thread_id action_id digest : Str) (x : ApprovalResult) : Type 0 where
  pub same_thread : x.thread_id ≡ thread_id
  pub same_action : x.action_id ≡ action_id
  pub same_digest : x.action_digest ≡ digest

module _ (sha256 : Str → Str) (json : DigestPayload → Str)
    (canonical_json : CanonicalPayload → Str) where
  abbrev digest_of : Identity → PlanDraft → PlanActionDraft → PolicyDecision → Str
  digest_of i plan a d =
      digest_action sha256 json i a d (sorted str_le (codes_of a.action_id plan.success_criteria))

  resolved-IsAbout :
      (resolve : ResolutionRequest → Resolution) (thread : Str) (s t u : GraphState)
      (x : ApprovalResult) (p : IsPaused sha256 json s t)
      → resume_approval resolve thread t ≡ done u
      → u.pending_approval ≡ resolved x
      → IsAbout p.identity.thread_id p.action.action_id
          (digest_of p.identity p.plan p.action p.decision)
          x
  unfolding resolution_request approval_result pending_request
  resolved-IsAbout resolve thread s t u x p h left =
      let y = resume_approval-resolves resolve thread t u p.checkpoint p.left h in
      let e = resolved_inj (sym left ∙ y.1) in
      record {
        same_thread =
            ap (λ (z : ApprovalResult). z.thread_id) e
            ∙ ap (λ (q : PendingRequest). q.thread_id) p.requested;
        same_action =
            ap (λ (z : ApprovalResult). z.action_id) e
            ∙ ap (λ (q : PendingRequest). q.action_id) p.requested;
        same_digest =
            ap (λ (z : ApprovalResult). z.action_digest) e
            ∙ ap (λ (q : PendingRequest). q.action_digest) p.requested;
      }

  approval_proof-approved :
      (i : Identity) (a : PlanActionDraft) (d : PolicyDecision) (cs : List Str) (x : ApprovalResult)
      → is_ask d.decision ≡ true
      → is_approved x.outcome ≡ true
      → IsAbout i.thread_id a.action_id (digest_action sha256 json i a d cs) x
      → approval_proof sha256 json canonical_json i a d cs (some x) ≡ done (some (proof_of x))
  unfolding approval_proof
  approval_proof-approved i a d cs x asks agreed m = rw (asks-not-allows d.decision asks) (
      rw asks (
        rw agreed (
          rw ((str_beq_iff x.thread_id i.thread_id).1 m.same_thread) (
            rw ((str_beq_iff x.action_id a.action_id).1 m.same_action) (
              rw
                ((str_beq_iff x.action_digest (digest_action sha256 json i a d cs)).1 m.same_digest)
                refl)))))

  -- When the user approves what `pauseForApproval` asked, `dispatchAction` accepts the approval that
  -- `resumeApproval` leaves as the licence of the very action that was asked about, with the same identity, decision
  -- and verification codes.
  pub approval_licenses_action :
      (service : PauseService) (resolve : ResolutionRequest → Resolution) (thread : Str)
      (s t u : GraphState) (x : ApprovalResult)
      → pause_for_approval sha256 json service s ≡ done t
      → resume_approval resolve thread t ≡ done u
      → u.pending_approval ≡ resolved x
      → is_approved x.outcome ≡ true
      → (p : IsPaused sha256 json s t) × (approval_proof sha256 json canonical_json p.identity
            p.action p.decision
            (sorted str_le (codes_of p.action.action_id p.plan.success_criteria))
            (some x)
          ≡ done (some (proof_of x)))
  approval_licenses_action service resolve thread s t u x paused resumed left agreed =
      let p = pause_for_approval-IsPaused sha256 json service s t paused in
      let asks = selected_action-asks p.plan.actions p.decisions p.action p.decision p.chosen in
      (
        p,
        approval_proof-approved p.identity p.action p.decision _ x asks.1 agreed
            (resolved-IsAbout resolve thread s t u x p resumed left),
      )

  -- The approval that `resumeApproval` leaves is a licence for nothing else than what `pauseForApproval` asked about:
  -- whatever action `dispatchAction` accepts it for has the identifier of that action, and a digest equal to that of
  -- the action as it was asked about.
  pub approval_licenses_nothing_else :
      (service : PauseService) (resolve : ResolutionRequest → Resolution) (thread : Str)
      (s t u : GraphState) (x : ApprovalResult) (i : Identity) (b : PlanActionDraft)
      (d : PolicyDecision) (cs : List Str) (q : ApprovalProof)
      → pause_for_approval sha256 json service s ≡ done t
      → resume_approval resolve thread t ≡ done u
      → u.pending_approval ≡ resolved x
      → approval_proof sha256 json canonical_json i b d cs (some x) ≡ done (some q)
      → (p : IsPaused sha256 json s t) × (is_approved x.outcome ≡ true)
        × (b.action_id ≡ p.action.action_id)
        × (digest_action sha256 json i b d cs ≡ digest_of p.identity p.plan p.action p.decision)
  approval_licenses_nothing_else service resolve thread s t u x i b d cs q paused resumed left
        licensed =
      let p = pause_for_approval-IsPaused sha256 json service s t paused in
      let m = resolved-IsAbout resolve thread s t u x p resumed left in
      elim (approval_proof-eq-done sha256 json canonical_json i b d cs (some x) (some q) licensed) [
        | inl e ↦ cc
        | inr e ↦
            let same = some_injective e.1 in
            (
              p,
              ap (λ (z : ApprovalResult). is_approved z.outcome) same ∙ e.3,
              sym e.5 ∙ ap (λ (z : ApprovalResult). z.action_id) (sym same) ∙ m.same_action,
              sym e.6 ∙ ap (λ (z : ApprovalResult). z.action_digest) (sym same) ∙ m.same_digest,
            )
      ]

-- ===== src/Graph/Dispatch/Approved.antt =====
-- An approval from its pause to the dispatch of the action: backend/src/jarvis/graph/approval.py,
-- approval_resume.py and dispatch.py.
use sriee.Base.{
  ℕ, ◌≡◌, ◌⊎◌, inl, inr, Bool, true, false, ◌&&◌, Option, none, some, List, [], ◌∷◌, ◌==◌, str_eq,
  leb, if◌then◌else◌, if_intro, sym, ap, ◌∙◌,
}
use sriee.Text.{Str, codes}
use sriee.Graph.Patterns.{str_le, is_thread_id}
use sriee.Graph.Plan.{PlanDraft, PlanActionDraft}
use sriee.Graph.Node.{
  Node, validation_error, key_error, done, same, same_iff, >>=-eq-done, require-eq-done,
  some_or-eq-done, require-done, done_inj,
}
use sriee.Graph.Policy.Contract.{PolicyDecision, is_ask}
use sriee.Graph.Policy.Decide.{sorted}
use sriee.Graph.Policy.Evaluate.{Answer, unavailable, malformed, answered}
use sriee.Graph.State.{
  PendingRequest, PendingRecord, ApprovalCheckpoint, paused, resolved, GraphState, Identity,
  identity_of, codes_of, decision_for, has_status,
}
use sriee.Graph.Approval.Request.{
  DigestPayload, pending_request, requested, build_request, valid_pending_request,
  valid_pending_record,
}
use sriee.Graph.Approval.Pause.{
  PauseService, pause_for_approval, resumed, pause_input, selected_action, pending_record,
  pending_request_discrete, resume_candidate, valid_pause_settings, PauseInput, is_nothing,
  valid_decisions,
}
use sriee.Graph.Approval.Resume.{
  ResolutionRequest, Resolution, resume_approval, load_checkpoint, checkpoint_of,
  resolution_request, resolution_record, approval_result, outcome_status, valid_checkpoint,
  ResolutionRecord, same_identity,
}

pause_input-eq-done :
    (s : GraphState) (x : PauseInput)
    → pause_input s ≡ done x
    → (identity_of s ≡ some x.identity)
      × (s.plan ≡ some x.plan)
      × (s.policy_decisions ≡ some x.decisions)
unfolding pause_input
pause_input-eq-done s x h =
    let a =
      require-eq-done (has_status (codes "awaiting_approval") s && is_nothing s.pending_approval) _
        _ h in
    let b = some_or-eq-done _ (identity_of s) _ a.1 in
    let c = some_or-eq-done _ s.plan _ b.2 in
    let d = some_or-eq-done _ s.policy_decisions _ c.2 in
    let e =
      require-done (valid_decisions c.0 d.0) (codes "approval_pause_contract_invalid") _ d.2 in
    (
      b.1 ∙ ap (λ (y : PauseInput). some y.identity) e.1,
      c.1 ∙ ap (λ (y : PauseInput). some y.plan) e.1,
      d.1 ∙ ap (λ (y : PauseInput). some y.decisions) e.1,
    )

chosen-asks :
    (o : Option PolicyDecision) (b a : PlanActionDraft) (d : PolicyDecision)
    (rest : Node (PlanActionDraft × PolicyDecision))
    → (elim o [ none ↦ key_error | some x ↦ if is_ask x.decision then done (b, x) else rest ])
      ≡ done (a, d)
    → ((b ≡ a) × (o ≡ some d) × (is_ask d.decision ≡ true)) ⊎ (rest ≡ done (a, d))
chosen-asks none b a d rest h = cc
chosen-asks (some x) b a d rest h =
    if_intro
      (λ (m : Node (PlanActionDraft × PolicyDecision)).
        m ≡ done (a, d)
        → ((b ≡ a) × (some x ≡ some d) × (is_ask d.decision ≡ true)) ⊎ (rest ≡ done (a, d)))
      (is_ask x.decision)
      (λ t e.
        let k = done_inj e in
        inl (ap (λ p. p.0) k, ap (λ p. some p.1) k, ap (λ p. is_ask p.1.decision) (sym k) ∙ t))
      (λ f e. inr e) h

pub selected_action-asks :
    (actions : List PlanActionDraft) (ds : List PolicyDecision) (a : PlanActionDraft)
    (d : PolicyDecision)
    → selected_action actions ds ≡ done (a, d)
    → (decision_for a.action_id ds ≡ some d) × (is_ask d.decision ≡ true)
unfolding selected_action
selected_action-asks [] ds a d h = cc
selected_action-asks (b ∷ actions) ds a d h =
    elim (chosen-asks (decision_for b.action_id ds) b a d (selected_action actions ds) h) [
      | inl t ↦ (rw (sym t.0) t.1, t.2)
      | inr t ↦ selected_action-asks actions ds a d t
    ]

pending_record-eq-done :
    (r : PendingRequest) (answer : Answer PendingRecord) (x : PendingRecord)
    → pending_record r answer ≡ done x
    → x.request ≡ r
unfolding pending_record
pending_record-eq-done r unavailable x h = cc
pending_record-eq-done r malformed x h = cc
pending_record-eq-done r (answered y) x h =
    let a = require-eq-done (valid_pending_record y) _ _ h in
    let b = require-done (same pending_request_discrete y.request r) _ y a.1 in
    ap (λ (z : PendingRecord). z.request) (sym b.1)
    ∙ (same_iff pending_request_discrete y.request r).0 b.0

build-eq-done :
    (b : Bool) (x r : PendingRequest) → (if b then done x else validation_error) ≡ done r → x ≡ r
build-eq-done true x r h = done_inj h
build-eq-done false x r h = cc

module _ (sha256 : Str → Str) (json : DigestPayload → Str) where
  build_request-eq-done :
      (n : ℕ) (i : Identity) (plan : PlanDraft) (a : PlanActionDraft) (d : PolicyDecision)
      (r : PendingRequest)
      → build_request sha256 json n i plan a d ≡ done r
      → pending_request sha256 json n i a d
          (sorted str_le (codes_of a.action_id plan.success_criteria))
        ≡ r
  unfolding build_request
  build_request-eq-done n i plan a d r h =
      go (sorted str_le (codes_of a.action_id plan.success_criteria)) h
    where
      go :
          (cs : List Str)
          → requested sha256 json n i a d cs ≡ done r
          → pending_request sha256 json n i a d cs ≡ r
      go [] e = cc
      go (c ∷ cs) e =
          build-eq-done (valid_pending_request (pending_request sha256 json n i a d (c ∷ cs))) _ r e

  -- What a pause leaves.
  pub record IsPaused (s t : GraphState) : Type 0 where
    pub identity : Identity
    pub plan : PlanDraft
    pub decisions : List PolicyDecision
    pub action : PlanActionDraft
    pub decision : PolicyDecision
    pub seconds : ℕ
    pub checkpoint : ApprovalCheckpoint
    pub identified : identity_of s ≡ some identity
    pub planned : s.plan ≡ some plan
    pub decisions_are : s.policy_decisions ≡ some decisions
    pub chosen : selected_action plan.actions decisions ≡ done (action, decision)
    pub requested :
        checkpoint.pending.request
        ≡ pending_request sha256 json seconds identity action decision
            (sorted str_le (codes_of action.action_id plan.success_criteria))
    pub left : t.pending_approval ≡ paused checkpoint

  pub pause_for_approval-IsPaused :
      (service : PauseService) (s t : GraphState)
      → pause_for_approval sha256 json service s ≡ done t
      → IsPaused s t
  unfolding pause_for_approval
  pause_for_approval-IsPaused service s t h =
      let a = require-eq-done (valid_pause_settings service.settings) _ _ h in
      let b = >>=-eq-done (pause_input s) _ a.1 in
      let read = pause_input-eq-done s b.0 b.1 in
      let c = >>=-eq-done (selected_action b.0.plan.actions b.0.decisions) _ b.2 in
      let n = service.settings.expires_after_seconds in
      let d = >>=-eq-done (build_request sha256 json n b.0.identity b.0.plan c.0.0 c.0.1) _ c.2 in
      let e = >>=-eq-done (pending_record d.0 (service.create_or_get d.0)) _ d.2 in
      let f =
        require-eq-done
          (leb (service.payload_bytes e.0) service.settings.max_interrupt_payload_bytes) _ _ e.2 in
      let g = >>=-eq-done (resumed (service.interrupt e.0)) _ f.1 in
      let k = >>=-eq-done (resume_candidate service.settings.max_resume_payload_bytes g.0) _ g.2 in
      record {
        identity = b.0.identity;
        plan = b.0.plan;
        decisions = b.0.decisions;
        action = c.0.0;
        decision = c.0.1;
        seconds = n;
        checkpoint = record { pending = e.0; resume = k.0 };
        identified = read.0;
        planned = read.1;
        decisions_are = read.2;
        chosen = c.1;
        requested =
            pending_record-eq-done d.0 (service.create_or_get d.0) e.0 e.1
            ∙ sym (build_request-eq-done n b.0.identity b.0.plan c.0.0 c.0.1 d.0 d.1);
        left = ap (λ (x : GraphState). x.pending_approval) (sym (done_inj k.2));
      }

checkpoint_of-eq-paused : (c d : ApprovalCheckpoint) → checkpoint_of (paused c) ≡ some d → c ≡ d
checkpoint_of-eq-paused c d h =
    if_intro (λ (o : Option ApprovalCheckpoint). o ≡ some d → c ≡ d) (valid_checkpoint c)
      (λ t e. cc) (λ f e. cc) h

load_checkpoint-eq-done :
    (thread : Str) (t : GraphState) (c : ApprovalCheckpoint)
    → load_checkpoint thread t ≡ done c
    → checkpoint_of t.pending_approval ≡ some c
unfolding load_checkpoint
load_checkpoint-eq-done thread t c h =
    let a = require-eq-done (has_status (codes "awaiting_approval") t) _ _ h in
    let b = require-eq-done (is_thread_id thread) _ _ a.1 in
    let k = some_or-eq-done _ (checkpoint_of t.pending_approval) _ b.1 in
    let d = require-eq-done (same_identity t k.0.pending.request) _ _ k.2 in
    let e = require-eq-done (thread == k.0.pending.request.thread_id) _ _ d.1 in
    let f =
      require-done
        (k.0.resume.approval_id == k.0.pending.request.approval_id
          && k.0.resume.action_digest == k.0.pending.request.action_digest)
        _ k.0 e.1 in
    k.1 ∙ ap (λ (z : ApprovalCheckpoint). some z) f.1

-- What a resolution leaves is about the request that was paused for.
pub resume_approval-resolves :
    (resolve : ResolutionRequest → Resolution) (thread : Str) (t u : GraphState)
    (c : ApprovalCheckpoint)
    → t.pending_approval ≡ paused c
    → resume_approval resolve thread t ≡ done u
    → (y : ResolutionRecord) × (u.pending_approval
        ≡ resolved (approval_result (resolution_request c) y))
      × (u.status ≡ some (outcome_status y.outcome))
unfolding resume_approval
resume_approval-resolves resolve thread t u c left h =
    let a = >>=-eq-done (load_checkpoint thread t) _ h in
    let b =
      >>=-eq-done (resolution_record (resolution_request a.0) (resolve (resolution_request a.0))) _
        a.2 in
    let e =
      checkpoint_of-eq-paused c a.0
        (ap checkpoint_of (sym left) ∙ load_checkpoint-eq-done thread t a.0 a.1) in
    let w = done_inj b.2 in
    (
      b.0,
      ap (λ (x : GraphState). x.pending_approval) (sym w)
          ∙ ap (λ (q : ApprovalCheckpoint). resolved (approval_result (resolution_request q) b.0))
              (sym e),
      ap (λ (x : GraphState). x.status) (sym w),
    )

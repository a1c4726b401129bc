-- ===== src/Graph/Dispatch/Ready.antt =====
-- Which action is dispatched, and by what licence (backend/src/jarvis/graph/dispatch.py).
use sriee.Base.{
  ℕ, ◌≡◌, ◌⊎◌, inl, inr, refl, Bool, true, false, not, Option, none, some, List, [], ◌∷◌, ◌==◌,
  str_eq, str_beq_iff, if◌then◌else◌, if_intro, sym, ap, ◌∙◌, and-true,
}
use sriee.Text.{Str, codes}
use sriee.Graph.Plan.{PlanDraft, PlanActionDraft}
use sriee.Graph.Node.{Node, refused, done}
use sriee.Graph.Policy.Contract.{PolicyDecision, is_ask, is_allow, has}
use sriee.Graph.State.{
  PriorActionResult, PendingApproval, nothing, unreadable, paused, resolved, ApprovalResult,
  GraphState, Identity, is_subset, decision_for,
}
use sriee.Graph.Approval.Request.{DigestPayload, digest_action}
use sriee.Graph.Dispatch.Contract.{
  ApprovalProof, DispatchRequest, DispatchSettings, valid_dispatch_request,
}
use sriee.Graph.Dispatch.Action.{
  CanonicalPayload, is_approved, proof_of, policy_proof, approval_proof, dispatch_request,
  requested_action,
}
use sriee.Graph.Dispatch.Input.{approval_of, first_ready, is_ready, successes, result_ids}
use sriee.Graph.Dispatch.Licence.{IsMade, requested_action-IsMade}

-- The action is of the list and is ready, and none before it is.
pub data FirstReady (rs : List PriorActionResult) (a : PlanActionDraft)
    : List PlanActionDraft → Type 0 where
  here : {actions : List PlanActionDraft} → is_ready rs a ≡ true → FirstReady rs a (a ∷ actions)
  later :
      {b : PlanActionDraft} {actions : List PlanActionDraft}
      → is_ready rs b ≡ false
      → FirstReady rs a actions
      → FirstReady rs a (b ∷ actions)

first_ready-FirstReady :
    (rs : List PriorActionResult) (actions : List PlanActionDraft) (a : PlanActionDraft)
    → first_ready rs actions ≡ some a
    → FirstReady rs a actions
unfolding first_ready
first_ready-FirstReady rs [] a h = cc
first_ready-FirstReady rs (b ∷ actions) a h =
    if_intro (λ (o : Option PlanActionDraft). o ≡ some a → FirstReady rs a (b ∷ actions))
      (is_ready rs b) (λ t e. let same : a ≡ b = cc in rw same (here t))
      (λ f e. later f (first_ready-FirstReady rs actions a e)) h

-- What is dispatched: of the plan's actions the first that is ready.
pub record IsNext (s : GraphState) (r : DispatchRequest) : Type 0 where
  pub plan : PlanDraft
  pub results : List PriorActionResult
  pub action : PlanActionDraft
  pub planned : s.plan ≡ some plan
  pub resulted : s.action_results ≡ some results
  pub first : FirstReady results action plan.actions
  pub named : r.action_id ≡ action.action_id
  pub not_run : has r.action_id (result_ids results) ≡ false
  pub unblocked : is_subset action.dependencies (successes results) ≡ true

-- An approval that licenses the request `r` for the action `a`, whose digest is `digest`.
pub record Approves (thread : Str) (s : GraphState) (digest : Str) (r : DispatchRequest)
    (x : ApprovalResult) : Type 0 where
  pub resolves : s.pending_approval ≡ resolved x
  pub is_approval : is_approved x.outcome ≡ true
  pub same_thread : x.thread_id ≡ thread
  pub same_action : x.action_id ≡ r.action_id
  pub same_digest : x.action_digest ≡ digest
  pub carried : r.approval ≡ some (proof_of x)

approval_of-eq-done :
    (p : PendingApproval) (x : ApprovalResult) → approval_of p ≡ done (some x) → p ≡ resolved x
approval_of-eq-done nothing x h = cc
approval_of-eq-done unreadable x h = cc
approval_of-eq-done (paused c) x h = cc
approval_of-eq-done (resolved y) x h = cc

first_ready-is_ready :
    (rs : List PriorActionResult) {a : PlanActionDraft} {actions : List PlanActionDraft}
    → FirstReady rs a actions
    → is_ready rs a ≡ true
first_ready-is_ready rs (here t) = t
first_ready-is_ready rs (later f h) = first_ready-is_ready rs h

allowed-or :
    (b : Bool) (m : Node (Option ApprovalProof)) (p : Option ApprovalProof)
    → (if b then done none else m) ≡ done p
    → ((b ≡ true) × (p ≡ none)) ⊎ (m ≡ done p)
allowed-or true m p h = inl (refl, cc)
allowed-or false m p h = inr h

proved-eq-done :
    (b : Bool) (y p : Option ApprovalProof) (e : Str)
    → (if b then done y else refused e) ≡ done p
    → (b ≡ true) × (p ≡ y)
proved-eq-done true y p e h = (refl, cc)
proved-eq-done false y p e h = cc

not-eq-true : (b : Bool) → not b ≡ true → b ≡ false
not-eq-true true h = cc
not-eq-true false h = refl

module _ (sha256 : Str → Str) (json : DigestPayload → Str)
    (canonical_json : CanonicalPayload → Str) where
  pub approval_proof-eq-done :
      (i : Identity) (a : PlanActionDraft) (d : PolicyDecision) (verification_codes : List Str)
      (o : Option ApprovalResult) (p : Option ApprovalProof)
      → approval_proof sha256 json canonical_json i a d verification_codes o ≡ done p
      → ((is_allow d.decision ≡ true) × (p ≡ none))
        ⊎ ((x : ApprovalResult) × (o ≡ some x)
            × (is_ask d.decision ≡ true)
            × (is_approved x.outcome ≡ true)
            × (x.thread_id ≡ i.thread_id)
            × (x.action_id ≡ a.action_id)
            × (x.action_digest ≡ digest_action sha256 json i a d verification_codes)
            × (p ≡ some (proof_of x)))
  unfolding approval_proof
  approval_proof-eq-done i a d verification_codes none p h =
      elim (allowed-or (is_allow d.decision) _ p h) [ inl t ↦ inl t | inr e ↦ cc ]
  approval_proof-eq-done i a d verification_codes (some x) p h =
      elim (allowed-or (is_allow d.decision) _ p h) [
        | inl t ↦ inl t
        | inr e ↦
            let k =
              proved-eq-done _ (some (proof_of x)) p (codes "action_dispatch_approval_invalid") e in
            let b = and-true (is_ask d.decision) _ k.0 in
            let c = and-true (is_approved x.outcome) _ b.1 in
            let f = and-true (x.thread_id == i.thread_id) _ c.1 in
            let g = and-true (x.action_id == a.action_id) _ f.1 in
            inr (
              x,
              refl,
              b.0,
              c.0,
              (str_beq_iff x.thread_id i.thread_id).0 f.0,
              (str_beq_iff x.action_id a.action_id).0 g.0,
              (str_beq_iff x.action_digest (digest_action sha256 json i a d verification_codes)).0
                  g.1,
              k.1,
            )
      ]

  -- The plan, the decision and the licence that a request rests on. Its digest is that of the action
  -- with the request's own identity and verification codes.
  pub record IsLicensed (thread : Str) (s : GraphState) (r : DispatchRequest) : Type 0 where
    pub next : IsNext s r
    pub decisions : List PolicyDecision
    pub decision : PolicyDecision
    pub has_decisions : s.policy_decisions ≡ some decisions
    pub decided : decision_for r.action_id decisions ≡ some decision
    pub quoted : r.policy ≡ policy_proof decision
    pub own_thread : r.identity.thread_id ≡ thread
    pub valid : valid_dispatch_request r ≡ true
    pub licence :
        ((is_allow decision.decision ≡ true) × (r.approval ≡ none))
        ⊎ ((is_ask decision.decision ≡ true)
            × ((x : ApprovalResult) × Approves thread s
                  (digest_action sha256 json r.identity next.action decision r.verification_codes)
                  r
                  x))

  licence_of :
      (thread : Str) (s : GraphState) (r : DispatchRequest)
      (m : IsMade sha256 json canonical_json thread s r)
      → ((is_allow m.decision.decision ≡ true) × (r.approval ≡ none))
        ⊎ ((is_ask m.decision.decision ≡ true)
            × ((x : ApprovalResult) × Approves thread s
                  (digest_action sha256 json r.identity m.action m.decision r.verification_codes)
                  r
                  x))
  unfolding dispatch_request
  licence_of thread s r m =
      let i = m.input.identity in
      let proved = ap (λ (q : DispatchRequest). q.approval) (sym m.made) in
      elim (approval_proof-eq-done i m.action m.decision _ m.input.approval m.proof m.licensed) [
        | inl t ↦ inl (t.0, proved ∙ t.1)
        | inr t ↦ inr (
          t.2,
          (
            t.0,
            record {
              resolves = approval_of-eq-done s.pending_approval t.0 (m.read.pending ∙ ap done t.1);
              is_approval = t.3;
              same_thread = t.4 ∙ sym ((str_beq_iff thread i.thread_id).0 m.read.own_thread);
              same_action = t.5 ∙ ap (λ (q : DispatchRequest). q.action_id) m.made;
              same_digest =
                  t.6
                  ∙ ap
                      (λ (q : DispatchRequest).
                        digest_action sha256 json q.identity m.action m.decision
                          q.verification_codes)
                      m.made;
              carried = proved ∙ t.7;
            },
          ),
        )
      ]

  -- A request that `dispatchAction` hands to the store is valid, and it is for the first of the plan's
  -- actions that has not run and whose dependencies have all succeeded. Its decision is the one on that
  -- action, which is "allow", or "ask" with an approval of the same run and action whose digest is that of the
  -- action with all its arguments.
  pub dispatch-IsLicensed :
      (settings : DispatchSettings) (request_bytes : DispatchRequest → ℕ) (thread : Str)
      (s : GraphState) (r : DispatchRequest)
      → requested_action sha256 json canonical_json settings request_bytes thread s ≡ done r
      → IsLicensed thread s r
  unfolding dispatch_request
  dispatch-IsLicensed settings request_bytes thread s r h =
      let m =
        requested_action-IsMade sha256 json canonical_json settings request_bytes thread s r h in
      let named = ap (λ (q : DispatchRequest). q.action_id) (sym m.made) in
      let first = first_ready-FirstReady m.input.results m.input.plan.actions m.action m.chosen in
      let ready = and-true _ _ (first_ready-is_ready m.input.results first) in
      record {
        next = record {
          plan = m.input.plan;
          results = m.input.results;
          action = m.action;
          planned = m.read.planned;
          resulted = m.read.resulted;
          first = first;
          named = named;
          not_run = rw named (not-eq-true _ ready.0);
          unblocked = ready.1;
        };
        decisions = m.input.decisions;
        decision = m.decision;
        has_decisions = m.read.decided;
        decided = rw named m.decided;
        quoted = ap (λ (q : DispatchRequest). q.policy) (sym m.made);
        own_thread =
            ap (λ (q : DispatchRequest). q.identity.thread_id) (sym m.made)
            ∙ sym ((str_beq_iff thread m.input.identity.thread_id).0 m.read.own_thread);
        valid = m.valid;
        licence = licence_of thread s r m;
      }

-- ===== src/Graph/Verification/Collected.antt =====
-- What is read of the state before a verification (backend/src/jarvis/graph/verification.py).
use sriee.Base.{
  ℕ, ◌≡◌, refl, Bool, true, false, ◌&&◌, Option, none, some, List, [], ◌∷◌, ◌++◌, ◌==◌, str_eq, leb,
  all, if◌then◌else◌, if_intro, sym, ap, ◌∙◌, if-true,
}
use sriee.Text.{Str, codes}
use sriee.Graph.Patterns.{is_thread_id}
use sriee.Graph.Node.{
  Node, refused, done, >>=-eq-done, require-eq-done, some_or-eq-done, require-done, done_inj,
}
use sriee.Graph.State.{GraphState, identity_of, has_status}
use sriee.Graph.Verification.Contract.{
  CriterionObservation, OutcomeVerification, valid_observation, valid_outcome,
}
use sriee.Graph.Verification.Input.{
  Evidence, other, criterion, outcome, bad_criterion, bad_outcome, VerificationInput, Replay,
  verification_input, valid_results, collect, keep_aggregate, natural, checkpoint_invalid, contract,
}

pub verification_input-eq-done :
    (n : ℕ) (thread : Str) (s : GraphState) (observations : Option (List Evidence))
    (x : VerificationInput)
    → verification_input n thread s observations ≡ done x
    → (s.plan ≡ some x.plan) × (s.action_results ≡ some x.results)
unfolding verification_input
verification_input-eq-done n thread s observations x h =
    let a = require-eq-done (has_status (codes "verifying") s) _ _ h in
    let b = some_or-eq-done _ (identity_of s) _ a.1 in
    let c = require-eq-done (is_thread_id thread && thread == b.0.thread_id) _ _ b.2 in
    let d = some_or-eq-done _ (natural s.revision_count) _ c.1 in
    let e = require-eq-done (leb d.0 n) _ _ d.2 in
    let f = some_or-eq-done _ s.plan _ e.1 in
    let g = some_or-eq-done _ s.action_results _ f.2 in
    let k = some_or-eq-done _ observations _ g.2 in
    let l = require-done (valid_results f.0 g.0) contract _ k.2 in
    (
      f.1 ∙ ap (λ (y : VerificationInput). some y.plan) l.1,
      g.1 ∙ ap (λ (y : VerificationInput). some y.results) l.1,
    )

all-append-true :
    (os : List CriterionObservation) (o : CriterionObservation)
    → all valid_observation os ≡ true
    → valid_observation o ≡ true
    → all valid_observation (os ++ (o ∷ [])) ≡ true
all-append-true [] o h t = rw t refl
all-append-true (x ∷ os) o h t =
    let a = if-true (valid_observation x) _ h in rw a.0 (all-append-true os o a.1 t)

kept-criteria :
    (v : OutcomeVerification) (seen next : Replay)
    → keep_aggregate v seen ≡ done next
    → next.criteria ≡ seen.criteria
kept-criteria v seen next h = go seen.aggregate (valid_outcome v) h
  where
    go :
        (o : Option OutcomeVerification) (b : Bool)
        → (elim o [
          | none ↦
              if b then done (record seen { aggregate = some v }) else refused checkpoint_invalid
          | some w ↦ refused checkpoint_invalid
        ])
          ≡ done next
        → next.criteria ≡ seen.criteria
    go none true e = ap (λ (r : Replay). r.criteria) (sym (done_inj e))
    go none false e = cc
    go (some w) b e = cc

-- What is collected is valid.
pub collect-valid :
    (verification_id : Str) (es : List Evidence) (seen end : Replay)
    → collect verification_id seen es ≡ done end
    → all valid_observation seen.criteria ≡ true
    → all valid_observation end.criteria ≡ true
unfolding collect
collect-valid i [] seen end h t =
    ap (λ (r : Replay). all valid_observation r.criteria) (sym (done_inj h)) ∙ t
collect-valid i (other ∷ es) seen end h t = collect-valid i es seen end h t
collect-valid i (bad_criterion j ∷ es) seen end h t =
    if_intro (λ (m : Node Replay). m ≡ done end → all valid_observation end.criteria ≡ true)
      (j == i) (λ e k. cc) (λ e k. collect-valid i es seen end k t) h
collect-valid i (bad_outcome j ∷ es) seen end h t =
    if_intro (λ (m : Node Replay). m ≡ done end → all valid_observation end.criteria ≡ true)
      (j == i) (λ e k. cc) (λ e k. collect-valid i es seen end k t) h
collect-valid i (criterion o ∷ es) seen end h t =
    if_intro (λ (m : Node Replay). m ≡ done end → all valid_observation end.criteria ≡ true)
      (o.verification_id == i)
      (λ e.
        if_intro (λ (m : Node Replay). m ≡ done end → all valid_observation end.criteria ≡ true)
          (valid_observation o)
          (λ u k. collect-valid i es _ end k (all-append-true seen.criteria o t u)) (λ u k. cc))
      (λ e k. collect-valid i es seen end k t) h
collect-valid i (outcome v ∷ es) seen end h t =
    if_intro (λ (m : Node Replay). m ≡ done end → all valid_observation end.criteria ≡ true)
      (v.verification_id == i)
      (λ e k.
        let a = >>=-eq-done (keep_aggregate v seen) _ k in
        collect-valid i es a.0 end a.2
          (ap (all valid_observation) (kept-criteria v seen a.0 a.1) ∙ t))
      (λ e k. collect-valid i es seen end k t) h

-- ===== src/Graph/Verification/Aggregate.antt =====
-- What `verifyOutcome` of backend/src/jarvis/graph/verification.py hands to the store is what it accepts back.
use sriee.Base.{
  ◌≡◌, refl, true, ◌&&◌, Option, none, some, List, [], ◌∷◌, str_eq, str_beq, str_beq_iff, map,
  if_intro, sym,
}
use sriee.Text.{Str, codes}
use sriee.Graph.Plan.{PlanActionDraft, PlanSuccessCriterion}
use sriee.Graph.Node.{Node, done, Moment, >>=-eq-done, require-eq-done, done_inj}
use sriee.Graph.State.{Identity, PriorActionResult}
use sriee.Graph.Verification.Contract.{
  CriterionObservation, ProbeDescriptor, ProbeRequest, valid_observation, valid_probe_result,
}
use sriee.Graph.Verification.Judge.{observation_id, result_for, observed_ids, fits_result}
use sriee.Graph.Verification.Observe.{
  Probes, ProbeLookup, ProbeReply, validated, validated_request, describes, answers, probe_request,
  system_observation, probe_observation, observe_reply, observe_lookup, run_criterion,
}

validated-eq-done : (x o : CriterionObservation) → validated x ≡ done o → x ≡ o
validated-eq-done x o =
    if_intro (λ (m : Node CriterionObservation). m ≡ done o → x ≡ o) (valid_observation x)
      (λ t h. done_inj h) (λ f h. cc)

module _ (sha256 : Str → Str) (verification_id : Str) where
  -- The observation is of the criterion, and of the action's result.
  pub record IsOf (c : PlanSuccessCriterion) (result : Option PriorActionResult)
      (o : CriterionObservation) : Type 0 where
    pub same_verification : o.verification_id ≡ verification_id
    pub same_observation : o.observation_id ≡ observation_id sha256 verification_id c.criterion_id
    pub same_criterion : o.criterion_id ≡ c.criterion_id
    pub same_action : o.action_id ≡ c.action_id
    pub same_code : o.verification_code ≡ c.verification_code
    pub same_result : fits_result o result ≡ true

  module _ (requested_at : Moment) (c : PlanSuccessCriterion) where
    system-IsOf :
        (r : PriorActionResult) (reason : Str) (o : CriterionObservation)
        → validated
            (system_observation sha256 verification_id requested_at c (some r.receipt_id) reason)
          ≡ done o
        → IsOf c (some r) o
    unfolding system_observation
    system-IsOf r reason o h =
        let e = validated-eq-done _ o h in
        rw (sym e) (record {
          same_verification = refl;
          same_observation = refl;
          same_criterion = refl;
          same_action = refl;
          same_code = refl;
          same_result = (str_beq_iff r.receipt_id r.receipt_id).1 refl;
        })

    observe_reply-IsOf :
        (p : ProbeDescriptor) (q : ProbeRequest) (a : PlanActionDraft) (r : PriorActionResult)
        (answer : ProbeReply) (o : CriterionObservation)
        → a.action_id ≡ c.action_id
        → observe_reply sha256 verification_id requested_at p q c a r answer ≡ done o
        → IsOf c (some r) o
    unfolding observe_reply probe_observation
    observe_reply-IsOf p q a r ProbeReply.timed_out o e h =
        system-IsOf r (codes "probe_timeout") o h
    observe_reply-IsOf p q a r ProbeReply.failing o e h =
        system-IsOf r (codes "probe_unavailable") o h
    observe_reply-IsOf p q a r ProbeReply.wrong_type o e h = cc
    observe_reply-IsOf p q a r (ProbeReply.replied x) o e h =
        let k = require-eq-done (valid_probe_result x && answers p q r x) _ _ h in
        let same =
          validated-eq-done (probe_observation sha256 verification_id requested_at c a r x) o k.1 in
        rw (sym same) (record {
          same_verification = refl;
          same_observation = refl;
          same_criterion = refl;
          same_action = e;
          same_code = refl;
          same_result = (str_beq_iff r.receipt_id r.receipt_id).1 refl;
        })

    observe_lookup-IsOf :
        (probes : Probes) (i : Identity) (a : PlanActionDraft) (r : PriorActionResult)
        (found : ProbeLookup) (o : CriterionObservation)
        → a.action_id ≡ c.action_id
        → observe_lookup sha256 verification_id requested_at probes i c a r found ≡ done o
        → IsOf c (some r) o
    unfolding observe_lookup
    observe_lookup-IsOf probes i a r ProbeLookup.unreachable o e h = cc
    observe_lookup-IsOf probes i a r ProbeLookup.missing o e h =
        system-IsOf r (codes "probe_unavailable") o h
    observe_lookup-IsOf probes i a r ProbeLookup.undescribed o e h = cc
    observe_lookup-IsOf probes i a r (ProbeLookup.found p) o e h =
        let k = require-eq-done (describes c a p) _ _ h in
        let q =
          >>=-eq-done (validated_request (probe_request verification_id i requested_at c a r)) _
            k.1 in
        observe_reply-IsOf p q.0 a r (probes.verify p q.0) o e q.2

    pub run_criterion-IsOf :
        (probes : Probes) (i : Identity) (a : PlanActionDraft) (result : Option PriorActionResult)
        (o : CriterionObservation)
        → a.action_id ≡ c.action_id
        → run_criterion sha256 verification_id requested_at probes i c a result ≡ done o
        → IsOf c result o
    unfolding run_criterion system_observation str_beq
    run_criterion-IsOf probes i a none o e h =
        let same = validated-eq-done _ o h in
        rw (sym same) (record {
          same_verification = refl;
          same_observation = refl;
          same_criterion = refl;
          same_action = refl;
          same_code = refl;
          same_result = refl;
        })
    run_criterion-IsOf probes i a (some r) o e h = observe_lookup-IsOf probes i a r _ o e h

  -- One observation for each criterion, in order.
  pub data AllOf (results : List PriorActionResult)
      : List PlanSuccessCriterion → List CriterionObservation → Type 0 where
    no_criteria : AllOf results [] []
    next_criterion :
        {c : PlanSuccessCriterion} {o : CriterionObservation} {cs : List PlanSuccessCriterion}
        {os : List CriterionObservation}
        → IsOf c (result_for c.action_id results) o
        → AllOf results cs os
        → AllOf results (c ∷ cs) (o ∷ os)

  pub AllOf-observed_ids :
      {results : List PriorActionResult} {cs : List PlanSuccessCriterion}
      {os : List CriterionObservation}
      → AllOf results cs os
      → observed_ids os ≡ map (λ (c : PlanSuccessCriterion). c.criterion_id) cs
  AllOf-observed_ids no_criteria = refl
  AllOf-observed_ids (next_criterion p ps) = rw p.same_criterion (rw (AllOf-observed_ids ps) refl)

-- ===== src/Graph/Verification/Input.antt =====
-- What a verification is given and what it looks up first (backend/src/jarvis/graph/verification.py).
use sriee.Base.{
  ℕ, ℤ, pos, Bool, not, ◌&&◌, Option, none, some, List, [], ◌∷◌, ◌++◌, ◌==◌, str_eq, leb, map,
  if◌then◌else◌,
}
use sriee.Text.{Str, codes}
use sriee.Graph.Patterns.{is_thread_id}
use sriee.Graph.Plan.{PlanDraft, PlanActionDraft, PlanSuccessCriterion}
use sriee.Graph.Node.{Node, refused, key_error, done, ◌>>=◌, ◌>>◌, require, some_or, Moment}
use sriee.Graph.Policy.Contract.{distinct}
use sriee.Graph.State.{Identity, PriorActionResult, GraphState, identity_of, has_status, is_subset}
use sriee.Graph.Verification.Contract.{
  CriterionObservation, OutcomeVerification, PersistenceRequest, VerificationRecord,
  valid_observation, valid_outcome, is_empty,
}
use sriee.Graph.Verification.Observe.{Probes}

-- An item of `observations`: of another type, of a type of this module and one of its contract, or of a
-- type of this module with an identifier, but not of its contract.
pub data Evidence : Type 0 where
  other : Evidence
  criterion : CriterionObservation → Evidence
  outcome : OutcomeVerification → Evidence
  bad_criterion bad_outcome : Str → Evidence

-- `VerificationSettings`
pub record VerificationSettings : Type 0 where
  pub probe_timeout : ℕ
  pub max_concurrency : ℕ
  pub max_revision_count : ℕ

-- What `load_verification` does: it raises, finds nothing, or returns something that is no
-- `VerificationRecord`, or a record.
pub data Loaded : Type 0 where
  unavailable absent wrong_type : Loaded
  stored : VerificationRecord → Loaded

-- What `record_or_get_verification` does: it raises `VerificationStoreConflictError` or something else,
-- or returns something that is no `VerificationRecord`, or a record.
pub data Recorded : Type 0 where
  conflicting unavailable wrong_type : Recorded
  stored : VerificationRecord → Recorded

-- `clock` is what it says before the probes run and after; `none` is no `datetime`.
pub record VerificationService : Type 0 where
  pub settings : VerificationSettings
  pub probes : Probes
  pub load : Str → Str → Str → Loaded
  pub save : PersistenceRequest → Recorded
  pub started : Option Moment
  pub finished : Option Moment

-- What the node returns: the observations that are appended to the state's, and its new status.
pub record Verified : Type 0 where
  pub observations : List Evidence
  pub status : Str

-- The test of `_validate_settings`.
unfoldable pub valid_verification_settings : VerificationSettings → Bool
valid_verification_settings s =
    (leb 1 s.probe_timeout && leb s.probe_timeout 30000000)
    && ((leb 1 s.max_concurrency && leb s.max_concurrency 16) && leb s.max_revision_count 2)

-- `_aware_now`
abbrev pub aware_now : Option Moment → Node Moment
aware_now none = refused (codes "verification_clock_invalid")
aware_now (some t) = if t.is_aware then done t else refused (codes "verification_clock_invalid")

-- What `_load_state` returns.
pub record VerificationInput : Type 0 where
  pub identity : Identity
  pub revision : ℕ
  pub plan : PlanDraft
  pub results : List PriorActionResult
  pub observations : List Evidence

abbrev pub contract : Str
contract = codes "verification_contract_invalid"

abbrev pub natural : Option ℤ → Option ℕ
natural (some (pos n)) = some n
natural _ = none

-- The relations that `_load_state` checks.
unfoldable pub valid_results : PlanDraft → List PriorActionResult → Bool
valid_results plan results =
    let action_ids = map (λ (a : PlanActionDraft). a.action_id) plan.actions in
    let result_ids = map (λ (r : PriorActionResult). r.action_id) results in
    (plan.schema_version == codes "1.0" && (not (is_empty action_ids) && distinct action_ids))
    && (distinct result_ids && is_subset result_ids action_ids)

-- `_load_state`; the state's `observations` are given beside it, `none` for what is no sequence. The
-- nodes before have left both lists in the state.
unfoldable pub verification_input :
    ℕ → Str → GraphState → Option (List Evidence) → Node VerificationInput
unfolding identity_of valid_results
verification_input max_revision_count thread s observations = do
  require (has_status (codes "verifying") s) (codes "verification_state_invalid")
  i ← some_or (codes "verification_identity_invalid") (identity_of s)
  require (is_thread_id thread && thread == i.thread_id) (codes "verification_identity_invalid")
  n ← some_or (codes "verification_identity_invalid") (natural s.revision_count)
  require (leb n max_revision_count) (codes "verification_identity_invalid")
  plan ← some_or contract s.plan
  rs ← some_or contract s.action_results
  os ← some_or contract observations
  require (valid_results plan rs) contract
  done (record { identity = i; revision = n; plan = plan; results = rs; observations = os })

-- What the state holds of a verification.
pub record Replay : Type 0 where
  pub criteria : List CriterionObservation
  pub aggregate : Option OutcomeVerification

abbrev pub checkpoint_invalid : Str
checkpoint_invalid = codes "verification_checkpoint_invalid"

-- The aggregate of the verification is found once.
abbrev pub keep_aggregate : OutcomeVerification → Replay → Node Replay
keep_aggregate v seen = elim seen.aggregate [
  | none ↦
      if valid_outcome v
      then done (record seen { aggregate = some v })
      else refused checkpoint_invalid
  | some w ↦ refused checkpoint_invalid
]

-- The loop of `_validate_checkpoint_replay`, from what has been collected.
unfoldable pub collect : Str → Replay → List Evidence → Node Replay
collect verification_id seen [] = done seen
collect verification_id seen (other ∷ es) = collect verification_id seen es
collect verification_id seen (bad_criterion i ∷ es) =
    let rest = collect verification_id seen es in
    if i == verification_id then refused checkpoint_invalid else rest
collect verification_id seen (bad_outcome i ∷ es) =
    let rest = collect verification_id seen es in
    if i == verification_id then refused checkpoint_invalid else rest
collect verification_id seen (criterion o ∷ es) =
    let rest = collect verification_id seen es in
    let more = collect verification_id (record seen { criteria = seen.criteria ++ (o ∷ []) }) es in
    if o.verification_id == verification_id
    then (if valid_observation o then more else refused checkpoint_invalid)
    else rest
collect verification_id seen (outcome v ∷ es) =
    let rest = collect verification_id seen es in
    let more = keep_aggregate v seen >>= λ next. collect verification_id next es in
    if v.verification_id == verification_id then more else rest

-- `{item.action_id: item for item in plan.actions}`
abbrev pub action_for : Str → List PlanActionDraft → Option PlanActionDraft
action_for i [] = none
action_for i (a ∷ actions) = elim (action_for i actions) [
  | none ↦ if a.action_id == i then some a else none
  | some b ↦ some b
]

-- `actions[criterion.action_id]`, for each criterion, before any runs.
abbrev pub paired :
    List PlanActionDraft
    → List PlanSuccessCriterion
    → Node (List (PlanSuccessCriterion × PlanActionDraft))
paired actions [] = done []
paired actions (c ∷ cs) = do
  a ← elim (action_for c.action_id actions) [ none ↦ key_error | some a ↦ done a ]
  rest ← paired actions cs
  done ((c, a) ∷ rest)

-- ===== src/Graph/Policy/Sound.antt =====
-- What holds of every decision on the way through backend/src/jarvis/graph/policy.py, from the
-- baseline of a valid policy on.
use sriee.Base.{
  ℕ, suc, ◌+◌, ◌≤◌, ◌≡◌, refl, Bool, true, false, ◌||◌, Option, none, some, List, [], ◌∷◌, ◌++◌,
  arith, ltb, length, length-append, all, if◌then◌else◌, if_intro, option_intro, str_eq, ◌==◌, ◌∙◌,
}
use sriee.Text.{Str}
use sriee.Dict.{insert}
use sriee.Graph.Plan.{PlanActionDraft}
use sriee.Graph.Patterns.{is_reason_code}
use sriee.Graph.Policy.Contract.{
  PolicyDecisionKind, RiskTier, is_allow, has, distinct, valid_floor, valid_verdict,
  valid_action_rule, valid_aggregate_rule, valid_snapshot, PolicyActionRule, PolicyAggregateRule,
  PolicySnapshot, SecurityRecommendation, is_rule_for,
}
use sriee.Graph.Policy.Decide.{
  MutableDecision, Decisions, apply_safety_floor, tighten, rule_for, baseline_decision,
  baseline_decisions, update_where, count_where, matches, raises, apply_aggregate_rule,
  apply_each_rule, apply_each_recommendation,
}

-- A decision with at most `n` reasons that the contract accepts.
pub record IsSound (n : ℕ) (x : MutableDecision) : Type 0 where
  pub verdict : valid_verdict x.decision x.risk_tier x.grant_reference_id ≡ true
  pub distinct_reasons : distinct x.reason_codes ≡ true
  pub safe_reasons : all is_reason_code x.reason_codes ≡ true
  pub some_reason : 1 ≤ length x.reason_codes
  pub few_reasons : length x.reason_codes ≤ n

pub floor_verdict :
    (d : PolicyDecisionKind) (t : RiskTier) (g : Option Str)
    → valid_verdict
        (apply_safety_floor d t g)
        t
        (if is_allow (apply_safety_floor d t g) then g else none)
      ≡ true
unfolding apply_safety_floor
floor_verdict d RiskTier.r4 g = refl
floor_verdict PolicyDecisionKind.allow RiskTier.r3 g = refl
floor_verdict PolicyDecisionKind.ask RiskTier.r3 g = refl
floor_verdict PolicyDecisionKind.deny RiskTier.r3 g = refl
floor_verdict PolicyDecisionKind.allow RiskTier.r2 none = refl
floor_verdict PolicyDecisionKind.allow RiskTier.r2 (some g) = refl
floor_verdict PolicyDecisionKind.ask RiskTier.r2 g = refl
floor_verdict PolicyDecisionKind.deny RiskTier.r2 g = refl
floor_verdict PolicyDecisionKind.allow RiskTier.r1 g = refl
floor_verdict PolicyDecisionKind.ask RiskTier.r1 g = refl
floor_verdict PolicyDecisionKind.deny RiskTier.r1 g = refl
floor_verdict PolicyDecisionKind.allow RiskTier.r0 g = refl
floor_verdict PolicyDecisionKind.ask RiskTier.r0 g = refl
floor_verdict PolicyDecisionKind.deny RiskTier.r0 g = refl

pub valid_floor-verdict :
    (d : PolicyDecisionKind) (t : RiskTier) (g : Option Str)
    → valid_floor d t g ≡ true
    → valid_verdict d t g ≡ true
valid_floor-verdict d t g h = ground arith

has-append_one : (x c : Str) (xs : List Str) → has x (xs ++ c ∷ []) ≡ (has x xs || c == x)
has-append_one x c [] = ground arith
has-append_one x c (y ∷ xs) = ground (arith, has-append_one x c xs)

distinct-append_one :
    (c : Str) (xs : List Str)
    → has c xs ≡ false
    → distinct xs ≡ true
    → distinct (xs ++ c ∷ []) ≡ true
distinct-append_one c [] h d = refl
distinct-append_one c (x ∷ xs) h d =
    ground (
      arith,
      has-append_one x c xs,
      distinct-append_one c xs,
      str_eq.beq_iff x c,
      str_eq.beq_iff c x,
    )

all-append_one :
    (p : Str → Bool) (c : Str) (xs : List Str)
    → all p xs ≡ true
    → p c ≡ true
    → all p (xs ++ c ∷ []) ≡ true
all-append_one p c [] h g = ground arith
all-append_one p c (x ∷ xs) h g = ground (arith, all-append_one p c xs)

IsSound-weaken : (n m : ℕ) {x : MutableDecision} → n ≤ m → IsSound n x → IsSound m x
IsSound-weaken n m h v = record {
  verdict = v.verdict;
  distinct_reasons = v.distinct_reasons;
  safe_reasons = v.safe_reasons;
  some_reason = v.some_reason;
  few_reasons = omega (arith, v.few_reasons);
}

pub tighten-IsSound :
    (n : ℕ) (d : PolicyDecisionKind) (t : RiskTier) (c : Str) (x : MutableDecision)
    → is_reason_code c ≡ true
    → IsSound n x
    → IsSound (suc n) (tighten d t c x)
unfolding tighten
tighten-IsSound n d t c x safe v = record {
  verdict = floor_verdict _ _ _;
  distinct_reasons =
      if_intro (λ (l : List Str). distinct l ≡ true) (has c x.reason_codes)
        (λ old. v.distinct_reasons)
        (λ new. distinct-append_one c x.reason_codes new v.distinct_reasons);
  safe_reasons =
      if_intro (λ (l : List Str). all is_reason_code l ≡ true) (has c x.reason_codes)
        (λ old. v.safe_reasons)
        (λ new. all-append_one is_reason_code c x.reason_codes v.safe_reasons safe);
  some_reason =
      if_intro (λ (l : List Str). 1 ≤ length l) (has c x.reason_codes) (λ old. v.some_reason)
        (λ new. omega (arith, length-append x.reason_codes (c ∷ [])));
  few_reasons =
      if_intro (λ (l : List Str). length l ≤ suc n) (has c x.reason_codes)
        (λ old. omega (arith, v.few_reasons))
        (λ new. omega (arith, v.few_reasons, length-append x.reason_codes (c ∷ [])));
}

pub data AllSound (n : ℕ) : Decisions → Type 0 where
  empty_sound : AllSound n []
  and_sound :
      {k : Str} {x : MutableDecision} {ds : Decisions}
      → IsSound n x
      → AllSound n ds
      → AllSound n ((k, x) ∷ ds)

pub AllSound-weaken : (n m : ℕ) {ds : Decisions} → n ≤ m → AllSound n ds → AllSound m ds
AllSound-weaken n m h empty_sound = empty_sound
AllSound-weaken n m h (and_sound v vs) =
    and_sound (IsSound-weaken n m h v) (AllSound-weaken n m h vs)

pub update_where-AllSound :
    (n : ℕ) (selects : Str → MutableDecision → Bool) (d : PolicyDecisionKind) (t : RiskTier)
    (c : Str) {ds : Decisions}
    → is_reason_code c ≡ true
    → AllSound n ds
    → AllSound (suc n) (update_where selects (tighten d t c) ds)
unfolding update_where
update_where-AllSound n selects d t c safe empty_sound = empty_sound
update_where-AllSound n selects d t c safe (and_sound {k} {x} v vs) =
    and_sound
      (if_intro (IsSound (suc n)) (selects k x) (λ hit. tighten-IsSound n d t c x safe v)
        (λ miss. IsSound-weaken n (suc n) (omega arith) v))
      (update_where-AllSound n selects d t c safe vs)

pub apply_each_rule-AllSound :
    (n : ℕ) (rules : List PolicyAggregateRule) {ds : Decisions}
    → all valid_aggregate_rule rules ≡ true
    → AllSound n ds
    → AllSound (length rules + n) (apply_each_rule rules ds)
unfolding apply_each_rule apply_aggregate_rule
apply_each_rule-AllSound n [] {ds} h v =
    AllSound-weaken n (length {A = PolicyAggregateRule} [] + n) (omega arith) v
apply_each_rule-AllSound n (x ∷ xs) {ds} h v =
    AllSound-weaken (length xs + suc n) (length (x ∷ xs) + n) (omega arith) (
      apply_each_rule-AllSound (suc n) xs (ground arith) (
        if_intro (AllSound (suc n)) (ltb (count_where (matches x) ds) x.minimum_matches)
          (λ few. AllSound-weaken n (suc n) (omega arith) v)
          (λ enough.
            update_where-AllSound n (matches x) x.decision x.risk_tier x.reason_code (ground arith)
              v)))

pub apply_each_recommendation-AllSound :
    (n : ℕ) (xs : List SecurityRecommendation) {ds : Decisions}
    → all (λ (x : SecurityRecommendation). is_reason_code x.reason_code) xs ≡ true
    → AllSound n ds
    → AllSound (length xs + n) (apply_each_recommendation xs ds)
unfolding apply_each_recommendation
apply_each_recommendation-AllSound n [] {ds} h v =
    AllSound-weaken n (length {A = SecurityRecommendation} [] + n) (omega arith) v
apply_each_recommendation-AllSound n (x ∷ xs) {ds} h v =
    AllSound-weaken (length xs + suc n) (length (x ∷ xs) + n) (omega arith) (
      apply_each_recommendation-AllSound (suc n) xs (ground arith)
        (update_where-AllSound n (raises x) x.decision x.risk_tier x.reason_code (ground arith) v))

rule_for-valid :
    (capability version : Str) (rules : List PolicyActionRule) (x : PolicyActionRule)
    → all valid_action_rule rules ≡ true
    → rule_for capability version rules ≡ some x
    → valid_action_rule x ≡ true
unfolding rule_for
rule_for-valid capability version [] x h = λ g. cc
rule_for-valid capability version (y ∷ ys) x h =
    option_intro (λ (o : Option PolicyActionRule). o ≡ some x → valid_action_rule x ≡ true)
      (rule_for capability version ys)
      (λ gone.
        if_intro (λ (o : Option PolicyActionRule). o ≡ some x → valid_action_rule x ≡ true)
          (is_rule_for capability version y) (λ hit g. ground arith) (λ miss g. cc))
      (λ z found g. rule_for-valid capability version ys x (ground arith) (found ∙ g))

pub baseline_decision-IsSound :
    (s : PolicySnapshot) (a : PlanActionDraft)
    → valid_snapshot s ≡ true
    → IsSound 1 (baseline_decision s a)
unfolding baseline_decision valid_snapshot
baseline_decision-IsSound s a h =
    option_intro (IsSound 1) (rule_for a.capability_id a.capability_version s.action_rules)
      (λ unlisted. record {
        verdict = ground arith;
        distinct_reasons = refl;
        safe_reasons = unfold is_reason_code in refl;
        some_reason = omega arith;
        few_reasons = omega arith;
      })
      (λ x found.
        let ok =
          rule_for-valid a.capability_id a.capability_version s.action_rules x (ground arith)
            found in
        record {
          verdict = valid_floor-verdict x.decision x.risk_tier x.grant_reference_id (ground arith);
          distinct_reasons = refl;
          safe_reasons = ground arith;
          some_reason = omega arith;
          few_reasons = omega arith;
        })

insert-AllSound :
    (n : ℕ) (k : Str) (x : MutableDecision) {ds : Decisions}
    → IsSound n x
    → AllSound n ds
    → AllSound n (insert k x ds)
unfolding insert
insert-AllSound n k x v empty_sound = and_sound v empty_sound
insert-AllSound n k x v (and_sound {k = j} {x = y} {ds = ds} w ws) =
    if_intro (AllSound n) (j == k) (λ same. and_sound v ws)
      (λ other. and_sound w (insert-AllSound n k x v ws))

pub baseline_decisions-AllSound :
    (s : PolicySnapshot) (actions : List PlanActionDraft) {ds : Decisions}
    → valid_snapshot s ≡ true
    → AllSound 1 ds
    → AllSound 1 (baseline_decisions s actions ds)
unfolding baseline_decisions
baseline_decisions-AllSound s [] h v = v
baseline_decisions-AllSound s (a ∷ actions) h v =
    baseline_decisions-AllSound s actions h
      (insert-AllSound 1 a.action_id (baseline_decision s a) (baseline_decision-IsSound s a h) v)

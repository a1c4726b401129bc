-- ===== src/Graph/Plan.antt =====
-- The plan that the policy and the later nodes read: `PlanDraft` of backend/src/jarvis/graph/plan.py.
use sriee.Base.{ℕ, ℤ, Bool, List}
use sriee.Text.{Str}

-- A float is its JSON text.
pub data ScalarValue : Type 0 where
  bool_value : Bool → ScalarValue
  int_value : ℤ → ScalarValue
  float_value str_value : Str → ScalarValue

pub record PlanArgument : Type 0 where
  pub name : Str
  pub value : ScalarValue

pub record PlanActionDraft : Type 0 where
  pub action_id : Str
  pub capability_id : Str
  pub capability_version : Str
  pub arguments : List PlanArgument
  pub dependencies : List Str
  pub timeout_seconds : ℕ

pub record PlanSuccessCriterion : Type 0 where
  pub criterion_id : Str
  pub action_id : Str
  pub verification_code : Str

-- The members of the three string enumerations are their texts.
pub record PlanDraft : Type 0 where
  pub schema_version : Str
  pub objective : Str
  pub assumptions : List Str
  pub actions : List PlanActionDraft
  pub success_criteria : List PlanSuccessCriterion
  pub warnings : List Str

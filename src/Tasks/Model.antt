-- ===== src/Tasks/Model.antt =====
-- The records of backend/src/jarvis/tasks/models.py that the repository and the services keep.
-- A `datetime` is a number of microseconds; `data` is reserved here, so that field is `details`.
use sriee.Base.{ℕ, ◌≡◌, ◌↔◌, Bool, true, ◌&&◌, Option, List, arith, Eq, str_beq, str_beq_iff}
use sriee.Text.{Str}
use sriee.Dict.{Dict}

pub data TaskInputType : Type 0 where
  text transcript : TaskInputType

pub data TaskStatus : Type 0 where
  created planning cancellation_requested awaiting_approval executing verifying : TaskStatus
  succeeded partially_succeeded failed cancelled denied expired : TaskStatus

pub data TaskOutcome : Type 0 where
  succeeded partially_succeeded failed cancelled denied expired : TaskOutcome

pub data ApprovalDecision : Type 0 where
  approve deny : ApprovalDecision

pub data ApprovalStatus : Type 0 where
  pending approved denied : ApprovalStatus

-- The values that `data: dict[str, Any]` of an event or outbox record holds.
pub data Datum : Type 0 where
  str : Str → Datum
  int : ℕ → Datum

pub record TaskRecord : Type 0 where
  pub task_id : Str
  pub actor_id : Str
  pub device_id : Str
  pub contract_version : Str
  pub input_type : TaskInputType
  pub input_content : Str
  pub status : TaskStatus
  pub idempotency_key : Str
  pub request_hash : Str
  pub correlation_id : Str
  pub created_at : ℕ

pub record TaskEvent : Type 0 where
  pub event_id : Str
  pub task_id : Str
  pub sequence : ℕ
  pub event_type : Str
  pub schema_version : Str
  pub occurred_at : ℕ
  pub correlation_id : Str
  pub details : Dict Str Datum

pub record OutboxRecord : Type 0 where
  pub outbox_id : Str
  pub event_type : Str
  pub schema_version : Str
  pub aggregate_id : Str
  pub occurred_at : ℕ
  pub correlation_id : Str
  pub details : Dict Str Datum

pub record TaskCreationBundle : Type 0 where
  pub task : TaskRecord
  pub event : TaskEvent
  pub outbox : OutboxRecord

pub record TaskCreationOutcome : Type 0 where
  pub task : TaskRecord
  pub event : TaskEvent
  pub outbox : OutboxRecord
  pub created : Bool

pub record PlanProjection : Type 0 where
  pub revision : ℕ
  pub status : Str

pub record PendingApprovalProjection : Type 0 where
  pub approval_id : Str
  pub action_id : Str
  pub risk_tier : Str
  pub expires_at : ℕ

pub record TaskResultProjection : Type 0 where
  pub outcome : TaskOutcome
  pub summary : Str
  pub artifact_reference_ids : List Str

pub record TaskProjectionRecord : Type 0 where
  pub task_id : Str
  pub actor_id : Str
  pub device_id : Str
  pub status : TaskStatus
  pub plan : Option PlanProjection
  pub pending_approval : Option PendingApprovalProjection
  pub result : Option TaskResultProjection
  pub created_at : ℕ
  pub updated_at : ℕ

pub record TaskEventPageRecord : Type 0 where
  pub task_id : Str
  pub events : List TaskEvent
  pub next_cursor : ℕ
  pub has_more : Bool

pub record TaskCancellationOutcome : Type 0 where
  pub task_id : Str
  pub status : TaskStatus
  pub cancellation_requested : Bool
  pub created : Bool
  pub event : Option TaskEvent
  pub outbox : Option OutboxRecord

pub record ApprovalRecord : Type 0 where
  pub approval_id : Str
  pub task_id : Str
  pub actor_id : Str
  pub device_id : Str
  pub action_id : Str
  pub action_digest : Str
  pub status : ApprovalStatus
  pub expires_at : ℕ
  pub decided_at : Option ℕ
  pub decision : Option ApprovalDecision

pub record ApprovalDecisionOutcome : Type 0 where
  pub approval : ApprovalRecord
  pub event : TaskEvent
  pub outbox : OutboxRecord

-- The key of `_by_idempotency`: actor, device and idempotency key.
abbrev pub Scope : Type 0
Scope = Str × Str × Str

abbrev pub scope_beq : Scope → Scope → Bool
scope_beq s t = str_beq s.0 t.0 && str_beq s.1 t.1 && str_beq s.2 t.2

pub scope_beq_iff : (s t : Scope) → (scope_beq s t ≡ true) ↔ (s ≡ t)
scope_beq_iff (a, b, c) (x, y, z) =
    ground (arith, str_beq_iff a x, str_beq_iff b y, str_beq_iff c z)

instance abbrev pub scope_eq : Eq Scope
scope_eq = record { beq = scope_beq; beq_iff = scope_beq_iff }

-- ===== src/Tasks/Service.antt =====
-- The task services of backend/src/jarvis/tasks/service.py over the repository. A notification and a
-- publication are attempted after the commit and their exceptions are swallowed, so a call returns
-- the list of those attempts. The request hash (SHA-256 of canonical JSON) is a parameter.
use sriee.Base.{
  ℕ, ℤ, pos, Bool, false, not, ◌&&◌, Option, none, some, List, [], ◌∷◌, ◌++◌, leb, if◌then◌else◌,
  str_eq, length, any, nat_beq,
}
use sriee.Text.{Str, codes, strip, prefixed, repeated, is_alnum, is_safe, is_hex, is_word}
use sriee.Tasks.Errors.{Result, ok, err, TaskError}
use sriee.Tasks.Model.{
  TaskInputType, TaskStatus, TaskEvent, TaskCreationBundle, TaskCreationOutcome,
  TaskProjectionRecord, TaskEventPageRecord, TaskCancellationOutcome, ApprovalDecision,
  ApprovalDecisionOutcome, Datum,
}
use sriee.Tasks.Repository.{
  Repository, create_or_get, get_projection, owned, list_authorized_events,
}
use sriee.Tasks.Control.{Stamp, request_cancellation, decide_approval}

pub record Principal : Type 0 where
  pub actor_id : Str
  pub device_id : Str
  pub contract_version : Str

pub record TaskInput : Type 0 where
  pub type : TaskInputType
  pub content : Str

-- `TaskInput.validate_content`, with the bounds of the field.
unfoldable pub validate_content : Str → Bool
validate_content content =
    leb 1 (length content)
    && (leb (length content) 16000
        && (not (leb (length (strip content)) 0) && not (any (nat_beq 0) content)))

-- `TaskInputType.value`
abbrev pub input_value : TaskInputType → Str
input_value TaskInputType.text = codes "text"
input_value TaskInputType.transcript = codes "transcript"

-- `SAFE_REQUEST_ID.fullmatch`
unfoldable pub safe_request_id : Str → Bool
safe_request_id [] = false
safe_request_id (c ∷ s) = is_alnum c && repeated is_safe 15 127 s

-- `_validate_identifier`; `none` is `InvalidRequestIdentifierError`.
unfoldable pub validate_identifier : Str → Option Str
validate_identifier value =
    let normalized = strip value in if safe_request_id normalized then some normalized else none

-- `re.fullmatch(r"tsk_[0-9a-f]{32}", task_id)`
unfoldable pub is_task_id : Str → Bool
is_task_id = prefixed (codes "tsk_") is_hex 32 32

-- `re.fullmatch(r"apr_[A-Za-z0-9_-]{8,128}", approval_id)`
unfoldable pub is_approval_id : Str → Bool
is_approval_id = prefixed (codes "apr_") is_word 8 128

-- An attempt to reach a collaborator.
pub data Effect : Type 0 where
  publish : TaskEvent → Effect
  notify : Str → Effect

-- What stands in `self` besides the repository: whether there is an event publisher.
abbrev pub announce : Bool → TaskEvent → Str → List Effect
announce has_publisher event task_id =
    (if has_publisher then publish event ∷ [] else []) ++ notify task_id ∷ []

module _ (hash_request : TaskInput → Principal → Str) where
  -- The bundle that `create` builds; `uuid` is the hexadecimal text of the task's UUID.
  unfoldable pub bundle_of : TaskInput → Principal → Str → Str → Str → Stamp → TaskCreationBundle
  bundle_of input principal key correlation uuid s =
      let task_id = codes "tsk_" ++ uuid in
      record {
        task = record {
          task_id = task_id;
          actor_id = principal.actor_id;
          device_id = principal.device_id;
          contract_version = principal.contract_version;
          input_type = input.type;
          input_content = input.content;
          status = TaskStatus.created;
          idempotency_key = key;
          request_hash = hash_request input principal;
          correlation_id = correlation;
          created_at = s.at;
        };
        event = record {
          event_id = codes "evt_" ++ s.event_uuid;
          task_id = task_id;
          sequence = 1;
          event_type = codes "task.created";
          schema_version = codes "1.0";
          occurred_at = s.at;
          correlation_id = correlation;
          details =
              (codes "input_type", Datum.str (input_value input.type))
              ∷ (codes "contract_version", Datum.str principal.contract_version)
              ∷ [];
        };
        outbox = record {
          outbox_id = codes "out_" ++ s.outbox_uuid;
          event_type = codes "graph.task.requested";
          schema_version = codes "1.0";
          aggregate_id = task_id;
          occurred_at = s.at;
          correlation_id = correlation;
          details =
              (codes "task_id", Datum.str task_id) ∷ (codes "event_sequence", Datum.int 1) ∷ [];
        };
      }

  abbrev announce_creation :
      Bool
      → Repository × Result TaskCreationOutcome
      → Repository × Result TaskCreationOutcome × List Effect
  announce_creation has_publisher (r, err e) = (r, err e, [])
  announce_creation has_publisher (r, ok o) =
      (r, ok o, (if o.created then announce has_publisher o.event o.task.task_id else []))

  -- `TaskCreationService.create`; `s.correlation_id` is the header as it came.
  unfoldable pub create :
      Bool
      → TaskInput
      → Principal
      → Str
      → Str
      → Stamp
      → Repository
      → Repository × Result TaskCreationOutcome × List Effect
  create has_publisher input principal key uuid s r = elim (validate_identifier key) [
    | none ↦ (r, err TaskError.invalid_request_identifier, [])
    | some safe_key ↦ elim (validate_identifier s.correlation_id) [
      | none ↦ (r, err TaskError.invalid_request_identifier, [])
      | some correlation ↦
          announce_creation has_publisher
            (create_or_get (bundle_of input principal safe_key correlation uuid s) r)
    ]
  ]

-- `TaskQueryService.get`
unfoldable pub get : Str → Principal → Repository → Result TaskProjectionRecord
get task_id principal r =
    if not (is_task_id task_id)
    then err TaskError.task_not_found
    else elim (get_projection task_id r) [
      | none ↦ err TaskError.task_not_found
      | some p ↦
          if owned principal.actor_id principal.device_id p
          then ok p
          else err TaskError.task_not_found
    ]

-- The part of `TaskEventQueryService.list` behind the check of the bounds.
abbrev pub list_page : Str → Principal → ℕ → ℕ → Repository → Result TaskEventPageRecord
list_page task_id principal after limit r =
    elim (list_authorized_events task_id principal.actor_id principal.device_id after limit r) [
      | none ↦ err TaskError.task_not_found
      | some page ↦ ok page
    ]

-- `after_sequence < 0 or not 1 <= limit <= 100`
abbrev pub list_bounded : Str → Principal → ℤ → ℤ → Repository → Result TaskEventPageRecord
list_bounded task_id principal (pos after) (pos limit) r =
    if leb 1 limit && leb limit 100
    then list_page task_id principal after limit r
    else err TaskError.invalid_pagination
list_bounded task_id principal _ _ r = err TaskError.invalid_pagination

-- `TaskEventQueryService.list`
unfoldable pub list : Str → Principal → ℤ → ℤ → Repository → Result TaskEventPageRecord
list task_id principal after limit r =
    if not (is_task_id task_id)
    then err TaskError.task_not_found
    else list_bounded task_id principal after limit r

abbrev pub announce_cancellation :
    Bool
    → Str
    → Repository × Result (Option TaskCancellationOutcome)
    → Repository × Result TaskCancellationOutcome × List Effect
announce_cancellation has_publisher task_id (r, err e) = (r, err e, [])
announce_cancellation has_publisher task_id (r, ok none) = (r, err TaskError.task_not_found, [])
announce_cancellation has_publisher task_id (r, ok (some o)) = (
  r,
  ok o,
  (if o.created
      then (elim o.event [ none ↦ notify task_id ∷ [] | some e ↦ announce has_publisher e task_id ])
      else []),
)

-- `TaskControlService.cancel`
unfoldable pub cancel :
    Bool
    → Str
    → Principal
    → Stamp
    → Repository
    → Repository × Result TaskCancellationOutcome × List Effect
cancel has_publisher task_id principal s r =
    if not (is_task_id task_id)
    then (r, err TaskError.task_not_found, [])
    else elim (validate_identifier s.correlation_id) [
      | none ↦ (r, err TaskError.invalid_request_identifier, [])
      | some correlation ↦ announce_cancellation has_publisher task_id (
          request_cancellation task_id principal.actor_id principal.device_id
            (record s { correlation_id = correlation }) r)
    ]

abbrev pub announce_decision :
    Bool
    → Repository × Result (Option ApprovalDecisionOutcome)
    → Repository × Result ApprovalDecisionOutcome × List Effect
announce_decision has_publisher (r, err e) = (r, err e, [])
announce_decision has_publisher (r, ok none) = (r, err TaskError.approval_not_found, [])
announce_decision has_publisher (r, ok (some o)) =
    (r, ok o, announce has_publisher o.event o.approval.task_id)

-- `TaskControlService.decide`
unfoldable pub decide :
    Bool
    → Str
    → Str
    → ApprovalDecision
    → Principal
    → Stamp
    → Repository
    → Repository × Result ApprovalDecisionOutcome × List Effect
decide has_publisher approval_id action_digest decision principal s r =
    if not (is_approval_id approval_id)
    then (r, err TaskError.approval_not_found, [])
    else elim (validate_identifier s.correlation_id) [
      | none ↦ (r, err TaskError.invalid_request_identifier, [])
      | some correlation ↦ announce_decision has_publisher (
          decide_approval approval_id principal.actor_id principal.device_id action_digest decision
            (record s { correlation_id = correlation }) r)
    ]

-- ===== src/Protocol/ServerMessages.antt =====
-- `parseCubeTask`, `parseLease` and `parseCoordinatorServerMessage` of
-- shared/coordinator-protocol.ts.
pub mod WellFormed
use Prim.Native.String.{String}
use hive_sat.Prelude.{ℕ, Bool, ◌&&◌, List, [], ◌∷◌, Option, none, some, length, leb, ℤ}
use hive_sat.Protocol.Json.{
  Json, Fields, property, same_text, ◌>>=◌, ◌>>◌, guard, fields_of, array_of, bool_of, id_of,
  bounded_integer, literal_of, optional, nullable, each, one_of,
}
use hive_sat.Protocol.Manifest.{max_safe_integer}
use hive_sat.Protocol.ClientMessages.{MessageBase, base_of, Parsed, with_version}

pub data TaskPurpose : Type 0 where
  search proof_finisher : TaskPurpose

pub record CubeTask : Type 0 where
  pub task_id : String
  pub parent_task_id : Option String
  pub depth : ℕ
  pub assumptions : List ℤ
  pub purpose : TaskPurpose

pub record Lease : Type 0 where
  pub lease_id : String
  pub task_id : String
  pub slot_id : String
  pub lease_count : ℕ
  pub issued_at : ℕ
  pub expires_at : ℕ
  pub maximum_expires_at : ℕ

-- A slot's work: `WorkMessage` and the entries of `activeLeases`.
pub record Work : Type 0 where
  pub slot_id : String
  pub task : CubeTask
  pub lease : Lease

pub data AckAction : Type 0 where
  session_heartbeat split yield result : AckAction

pub data ErrorCode : Type 0 where
  invalid_message upgrade_required job_mismatch hello_required invalid_state : ErrorCode
  stale_lease split_not_needed task_limit session_quarantined : ErrorCode

pub data CancelReason : Type 0 where
  owner_cancelled expired : CancelReason

pub data JobVerdict : Type 0 where
  sat_verified unsat_certified unsat_owner_verified : JobVerdict

pub data ServerMessage : Type 0 where
  welcome : (heartbeat_interval_ms lease_duration_ms : ℕ) → List Work → ServerMessage
  work : Option String → Work → ServerMessage
  split_permit : (permit_id slot_id task_id lease_id : String) (expires_at : ℕ) → ServerMessage
  ack : (request_message_id : String) → AckAction → (stale_lease : Option Bool) → ServerMessage
  error : ErrorCode → (retryable : Bool) → (request_message_id : Option String) → ServerMessage
  job_cancelled : CancelReason → ServerMessage
  job_suspended : ServerMessage
  job_result : JobVerdict → (task_id : String) → ServerMessage

-- `ServerMessageBase`
pub record ServerBase : Type 0 where
  pub base : MessageBase
  pub server_time : ℕ

-- `parseCubeTask`
unfoldable pub parse_cube_task : Option Json → Option CubeTask
parse_cube_task j = do
  v ← fields_of j
  task_id ← id_of (property "taskId" v)
  parent_task_id ← nullable id_of (property "parentTaskId" v)
  depth ← bounded_integer 0 64 (property "depth" v)
  js ← array_of (property "assumptions" v)
  guard (leb (length js) 64)
  purpose ←
      one_of (("SEARCH", TaskPurpose.search) ∷ ("PROOF_FINISHER", TaskPurpose.proof_finisher) ∷ [])
        (property "purpose" v)
  assumptions ← each literal_of js
  some (record {
    task_id = task_id;
    parent_task_id = parent_task_id;
    depth = depth;
    assumptions = assumptions;
    purpose = purpose;
  })

-- `parseLease`
unfoldable pub parse_lease : Option Json → Option Lease
parse_lease j = do
  v ← fields_of j
  lease_id ← id_of (property "leaseId" v)
  task_id ← id_of (property "taskId" v)
  slot_id ← id_of (property "slotId" v)
  lease_count ← bounded_integer 1 max_safe_integer (property "leaseCount" v)
  issued_at ← bounded_integer 0 max_safe_integer (property "issuedAt" v)
  expires_at ← bounded_integer 0 max_safe_integer (property "expiresAt" v)
  maximum ← bounded_integer 0 max_safe_integer (property "maximumExpiresAt" v)
  guard (leb issued_at expires_at && leb expires_at maximum)
  some (record {
    lease_id = lease_id;
    task_id = task_id;
    slot_id = slot_id;
    lease_count = lease_count;
    issued_at = issued_at;
    expires_at = expires_at;
    maximum_expires_at = maximum;
  })

-- The task and the lease of a slot, which name each other.
unfoldable pub work_of : Fields → Option Work
work_of v = do
  slot_id ← id_of (property "slotId" v)
  task ← parse_cube_task (property "task" v)
  lease ← parse_lease (property "lease" v)
  guard (same_text task.task_id lease.task_id)
  guard (same_text slot_id lease.slot_id)
  some (record { slot_id = slot_id; task = task; lease = lease })

unfoldable pub active_lease_of : Option Json → Option Work
active_lease_of j = do v ← fields_of j; work_of v

unfoldable pub welcome_of : Fields → Option ServerMessage
welcome_of v = do
  heartbeat ← bounded_integer 1000 3600000 (property "heartbeatIntervalMs" v)
  duration ← bounded_integer 1000 86400000 (property "leaseDurationMs" v)
  js ← array_of (property "activeLeases" v)
  guard (leb (length js) 32)
  leases ← each active_lease_of js
  some (ServerMessage.welcome heartbeat duration leases)

unfoldable pub work_message_of : Fields → Option ServerMessage
work_message_of v = do
  request ← optional id_of (property "requestMessageId" v)
  leased ← work_of v
  some (ServerMessage.work request leased)

unfoldable pub split_permit_of : Fields → Option ServerMessage
split_permit_of v = do
  permit_id ← id_of (property "permitId" v)
  slot_id ← id_of (property "slotId" v)
  task_id ← id_of (property "taskId" v)
  lease_id ← id_of (property "leaseId" v)
  expires_at ← bounded_integer 0 max_safe_integer (property "expiresAt" v)
  some (ServerMessage.split_permit permit_id slot_id task_id lease_id expires_at)

abbrev ack_actions : List (String × AckAction)
ack_actions =
    ("SESSION_HEARTBEAT", AckAction.session_heartbeat)
    ∷ ("SPLIT", AckAction.split)
    ∷ ("YIELD", AckAction.yield)
    ∷ ("RESULT", AckAction.result)
    ∷ []

unfoldable pub ack_of : Fields → Option ServerMessage
ack_of v = do
  request ← id_of (property "requestMessageId" v)
  action ← one_of ack_actions (property "action" v)
  stale ← optional bool_of (property "staleLease" v)
  some (ServerMessage.ack request action stale)

abbrev error_codes : List (String × ErrorCode)
error_codes =
    ("INVALID_MESSAGE", ErrorCode.invalid_message)
    ∷ ("UPGRADE_REQUIRED", ErrorCode.upgrade_required)
    ∷ ("JOB_MISMATCH", ErrorCode.job_mismatch)
    ∷ ("HELLO_REQUIRED", ErrorCode.hello_required)
    ∷ ("INVALID_STATE", ErrorCode.invalid_state)
    ∷ ("STALE_LEASE", ErrorCode.stale_lease)
    ∷ ("SPLIT_NOT_NEEDED", ErrorCode.split_not_needed)
    ∷ ("TASK_LIMIT", ErrorCode.task_limit)
    ∷ ("SESSION_QUARANTINED", ErrorCode.session_quarantined)
    ∷ []

unfoldable pub error_of : Fields → Option ServerMessage
error_of v = do
  problem ← one_of error_codes (property "code" v)
  retryable ← bool_of (property "retryable" v)
  request ← optional id_of (property "requestMessageId" v)
  some (ServerMessage.error problem retryable request)

unfoldable pub job_cancelled_of : Fields → Option ServerMessage
job_cancelled_of v = do
  reason ←
      one_of
        (("OWNER_CANCELLED", CancelReason.owner_cancelled) ∷ ("EXPIRED", CancelReason.expired) ∷ [])
        (property "reason" v)
  some (ServerMessage.job_cancelled reason)

unfoldable pub job_suspended_of : Fields → Option ServerMessage
job_suspended_of v = do
  _ ← one_of (("OWNER_ACTION_REQUIRED", tt) ∷ []) (property "reason" v)
  some ServerMessage.job_suspended

unfoldable pub job_result_of : Fields → Option ServerMessage
job_result_of v = do
  verdict ←
      one_of
        (("SAT_VERIFIED", JobVerdict.sat_verified)
          ∷ ("UNSAT_CERTIFIED", JobVerdict.unsat_certified)
          ∷ ("UNSAT_OWNER_VERIFIED", JobVerdict.unsat_owner_verified)
          ∷ [])
        (property "result" v)
  task_id ← id_of (property "taskId" v)
  some (ServerMessage.job_result verdict task_id)

pub data ServerType : Type 0 where
  welcome work split_permit ack error job_cancelled job_suspended job_result : ServerType

abbrev server_types : List (String × ServerType)
server_types =
    ("WELCOME", ServerType.welcome)
    ∷ ("WORK", ServerType.work)
    ∷ ("SPLIT_PERMIT", ServerType.split_permit)
    ∷ ("ACK", ServerType.ack)
    ∷ ("ERROR", ServerType.error)
    ∷ ("JOB_CANCELLED", ServerType.job_cancelled)
    ∷ ("JOB_SUSPENDED", ServerType.job_suspended)
    ∷ ("JOB_RESULT", ServerType.job_result)
    ∷ []

unfoldable pub server_body_of : Fields → ServerType → Option ServerMessage
server_body_of v ServerType.welcome = welcome_of v
server_body_of v ServerType.work = work_message_of v
server_body_of v ServerType.split_permit = split_permit_of v
server_body_of v ServerType.ack = ack_of v
server_body_of v ServerType.error = error_of v
server_body_of v ServerType.job_cancelled = job_cancelled_of v
server_body_of v ServerType.job_suspended = job_suspended_of v
server_body_of v ServerType.job_result = job_result_of v

-- The tests after that of the version.
unfoldable pub server_message_of : Fields → Option (ServerBase × ServerMessage)
server_message_of v = do
  base ← base_of v
  type ← one_of server_types (property "type" v)
  server_time ← bounded_integer 0 max_safe_integer (property "serverTime" v)
  body ← server_body_of v type
  some (record { base = base; server_time = server_time }, body)

-- `parseCoordinatorServerMessage`
unfoldable pub parse_coordinator_server_message : Json → Parsed (ServerBase × ServerMessage)
parse_coordinator_server_message j = with_version server_message_of (some j)

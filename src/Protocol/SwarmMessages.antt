-- ===== src/Protocol/SwarmMessages.antt =====
-- `parseSwarmClientMessage` and `parseSwarmServerMessage` of shared/swarm-protocol.ts.
pub mod WellFormed
use Prim.Native.String.{String}
use hive_sat.Prelude.{ℕ, Bool, true, false, ◌||◌, List, [], ◌∷◌, Option, none, some, if◌then◌else◌}
use hive_sat.Protocol.Capabilities.{WorkerCapabilities}
use hive_sat.Protocol.Json.{
  Json, Items, Fields, property, same_text, ◌>>=◌, fields_of, bool_of, id_of, bounded_integer,
  optional, one_of,
}
use hive_sat.Protocol.Manifest.{max_safe_integer}
use hive_sat.Protocol.ClientMessages.{Parsed, with_version, parse_worker_capabilities}

-- `PreviousSwarmAssignment`, with the id as it is sent.
pub record PreviousAssignment : Type 0 where
  pub assignment_id : String
  pub active_worker_ms : ℕ

pub record SwarmHello : Type 0 where
  pub message_id : String
  pub session_id : String
  pub capabilities : WorkerCapabilities
  pub previous_assignment : Option PreviousAssignment

unfoldable pub previous_assignment_of : Option Json → Option PreviousAssignment
previous_assignment_of j = do
  v ← fields_of j
  assignment_id ← id_of (property "assignmentId" v)
  active ← bounded_integer 0 115200000 (property "activeWorkerMs" v)
  some (record { assignment_id = assignment_id; active_worker_ms = active })

unfoldable pub swarm_hello_of : Fields → Option SwarmHello
swarm_hello_of v = do
  _ ← one_of (("SWARM_HELLO", tt) ∷ []) (property "type" v)
  message_id ← id_of (property "messageId" v)
  session_id ← id_of (property "sessionId" v)
  capabilities ← parse_worker_capabilities (property "capabilities" v)
  previous ← optional previous_assignment_of (property "previousAssignment" v)
  some (record {
    message_id = message_id;
    session_id = session_id;
    capabilities = capabilities;
    previous_assignment = previous;
  })

-- `parseSwarmClientMessage`
unfoldable pub parse_swarm_client_message : Json → Parsed SwarmHello
parse_swarm_client_message j = with_version swarm_hello_of (some j)

-- `SwarmSnapshot`
pub record SwarmSnapshot : Type 0 where
  pub active_jobs : ℕ
  pub active_workers : ℕ

-- `parseSnapshot`
unfoldable pub parse_snapshot : Option Json → Option SwarmSnapshot
parse_snapshot j = do
  v ← fields_of j
  jobs ← bounded_integer 0 100000 (property "activeJobs" v)
  workers ← bounded_integer 0 1000000 (property "activeWorkers" v)
  some (record { active_jobs = jobs; active_workers = workers })

-- `SwarmServerBase`
pub record SwarmBase : Type 0 where
  pub message_id : String
  pub request_message_id : String
  pub server_time : ℕ
  pub snapshot : SwarmSnapshot

pub record SwarmAssignment : Type 0 where
  pub assignment_id : String
  pub job_id : String
  pub workers : ℕ
  pub quantum_ms : ℕ
  pub reserved_worker_ms : ℕ
  pub conflict_budget : ℕ
  pub lease_target_ms : ℕ

pub data SwarmServerMessage : Type 0 where
  assignment : SwarmAssignment → SwarmServerMessage
  no_work : (retry_after_ms : ℕ) → SwarmServerMessage
  error : (code : Json) → (retryable : Bool) → SwarmServerMessage

unfoldable pub swarm_base_of : Fields → Option SwarmBase
swarm_base_of v = do
  snapshot ← parse_snapshot (property "snapshot" v)
  message_id ← id_of (property "messageId" v)
  request ← id_of (property "requestMessageId" v)
  server_time ← bounded_integer 0 max_safe_integer (property "serverTime" v)
  some (record {
    message_id = message_id;
    request_message_id = request;
    server_time = server_time;
    snapshot = snapshot;
  })

unfoldable pub assignment_of : Fields → Option SwarmServerMessage
assignment_of v = do
  assignment_id ← id_of (property "assignmentId" v)
  job_id ← id_of (property "jobId" v)
  workers ← bounded_integer 1 32 (property "workers" v)
  quantum ← bounded_integer 60000 86400000 (property "quantumMs" v)
  reserved ← bounded_integer 60000 2764800000 (property "reservedWorkerMs" v)
  budget ← bounded_integer 1 10000 (property "conflictBudget" v)
  target ← bounded_integer 60000 86400000 (property "leaseTargetMs" v)
  some (
      SwarmServerMessage.assignment (record {
        assignment_id = assignment_id;
        job_id = job_id;
        workers = workers;
        quantum_ms = quantum;
        reserved_worker_ms = reserved;
        conflict_budget = budget;
        lease_target_ms = target;
      }))

unfoldable pub no_work_of : Fields → Option SwarmServerMessage
no_work_of v = do
  retry ← bounded_integer 1000 3600000 (property "retryAfterMs" v)
  some (SwarmServerMessage.no_work retry)

-- `String(value)`, where it can be one of the codes: the text of a list with one element is that of
-- the element.
unfoldable pub code_text : Json → Option String
code_text (Json.string s) = some s
code_text (Json.array (Items.item j Items.nil)) = code_text j
code_text _ = none

-- `SwarmErrorMessage["code"]`
abbrev pub is_swarm_error_code : Option String → Bool
is_swarm_error_code none = false
is_swarm_error_code (some s) =
    same_text s "INVALID_MESSAGE"
    || same_text s "UPGRADE_REQUIRED"
    || same_text s "INVALID_ASSIGNMENT"

abbrev pub has_code : Option Json → Option Json
has_code none = none
has_code (some j) = if is_swarm_error_code (code_text j) then some j else none

unfoldable pub swarm_error_of : Fields → Option SwarmServerMessage
swarm_error_of v = do
  problem ← has_code (property "code" v)
  retryable ← bool_of (property "retryable" v)
  some (SwarmServerMessage.error problem retryable)

pub data SwarmType : Type 0 where
  assignment no_work error : SwarmType

abbrev swarm_types : List (String × SwarmType)
swarm_types =
    ("SWARM_ASSIGNMENT", SwarmType.assignment)
    ∷ ("SWARM_NO_WORK", SwarmType.no_work)
    ∷ ("SWARM_ERROR", SwarmType.error)
    ∷ []

unfoldable pub swarm_body_of : Fields → SwarmType → Option SwarmServerMessage
swarm_body_of v SwarmType.assignment = assignment_of v
swarm_body_of v SwarmType.no_work = no_work_of v
swarm_body_of v SwarmType.error = swarm_error_of v

unfoldable pub swarm_message_of : Fields → Option (SwarmBase × SwarmServerMessage)
swarm_message_of v = do
  base ← swarm_base_of v
  type ← one_of swarm_types (property "type" v)
  body ← swarm_body_of v type
  some (base, body)

-- `parseSwarmServerMessage`
unfoldable pub parse_swarm_server_message : Json → Parsed (SwarmBase × SwarmServerMessage)
parse_swarm_server_message j = with_version swarm_message_of (some j)

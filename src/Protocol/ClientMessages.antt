-- ===== src/Protocol/ClientMessages.antt =====
-- `parseWorkerCapabilities` and `parseCoordinatorClientMessage` of shared/coordinator-protocol.ts.
-- Every test that fails has the same answer, so that their order does not matter.
pub mod WellFormed
use Prim.Native.String.{String}
use hive_sat.Prelude.{
  ℕ, Bool, true, false, not, ◌&&◌, ◌||◌, ◌==◌, List, [], ◌∷◌, Option, none, some, map, length, leb,
  ltb, ℤ, if◌then◌else◌,
}
use hive_sat.Protocol.Capabilities.{WorkerCapabilities}
use hive_sat.Protocol.Json.{
  Json, Fields, property, same_text, is_version, is_distinct, ◌>>=◌, ◌>>◌, guard, fields_of,
  array_of, bool_of, text_of, id_of, sha256_of, bounded_integer, literal_of, optional, nullable,
  each, one_of,
}
use hive_sat.Protocol.Manifest.{
  CommonMetadata, SatResultManifest, UnsatProofManifest, ResultManifest, parse_result_manifest,
  max_safe_integer,
}

-- PUBLIC_JOB_PROTOCOL_VERSION
abbrev pub public_job_protocol_version : ℕ
public_job_protocol_version = 4

-- COORDINATOR_MAX_SLOTS
abbrev pub coordinator_max_slots : ℕ
coordinator_max_slots = 32

-- COORDINATOR_MAX_LEASE_TENURE_MS
abbrev pub coordinator_max_lease_tenure_ms : ℕ
coordinator_max_lease_tenure_ms = 3600000

-- `MessageBase`
pub record MessageBase : Type 0 where
  pub message_id : String
  pub job_id : String

pub record SessionHeartbeatSlot : Type 0 where
  pub slot_id : String
  pub lease_id : Option String
  pub active_ms : ℕ
  pub conflicts : ℕ
  pub decisions : ℕ
  pub propagations : ℕ

pub data YieldReason : Type 0 where
  paused shutdown unsupported worker_error : YieldReason

pub data Verdict : Type 0 where
  sat unsat : Verdict

pub data ClientMessage : Type 0 where
  hello :
      (session_id : String) (assignment_id : Option String) (slot_ids : List String)
      → WorkerCapabilities
      → ClientMessage
  session_heartbeat : List SessionHeartbeatSlot → ClientMessage
  split : (slot_id task_id lease_id permit_id : String) (split_literal : ℤ) → ClientMessage
  yield : (slot_id task_id lease_id : String) → YieldReason → ClientMessage
  result :
      (slot_id task_id lease_id : String)
      → Verdict
      → (evidence_sha256 : String) → ResultManifest
      → ClientMessage

-- `CoordinatorMessageParseResult` and the like.
pub data Parsed (M : Type 0) : Type 0 where
  message : M → Parsed M
  invalid_message upgrade_required : Parsed M

-- `parseWorkerCapabilities`
unfoldable pub parse_worker_capabilities : Option Json → Option WorkerCapabilities
parse_worker_capabilities j = do
  v ← fields_of j
  hardware_concurrency ← bounded_integer 1 256 (property "hardwareConcurrency" v)
  max_workers ← bounded_integer 1 32 (property "maxWorkers" v)
  mobile ← bool_of (property "mobile" v)
  solver_version ← text_of is_version (property "solverVersion" v)
  proof_generation ← optional bool_of (property "proofGeneration" v)
  calibrated ← optional (bounded_integer 1 10000000) (property "calibratedConflictsPerSecond" v)
  some (record {
    hardware_concurrency = hardware_concurrency;
    max_workers = max_workers;
    mobile = mobile;
    solver_version = solver_version;
    proof_generation = proof_generation;
    calibrated_conflicts_per_second = calibrated;
  })

-- `hasBase`
unfoldable pub base_of : Fields → Option MessageBase
base_of v = do
  message_id ← id_of (property "messageId" v)
  job_id ← id_of (property "jobId" v)
  some (record { message_id = message_id; job_id = job_id })

unfoldable pub hello_of : Fields → Option ClientMessage
hello_of v = do
  capabilities ← parse_worker_capabilities (property "capabilities" v)
  session_id ← id_of (property "sessionId" v)
  js ← array_of (property "slotIds" v)
  guard (leb 1 (length js) && leb (length js) coordinator_max_slots)
  slot_ids ← each id_of js
  guard (length slot_ids == capabilities.max_workers)
  guard (is_distinct slot_ids)
  assignment_id ← optional id_of (property "assignmentId" v)
  some (ClientMessage.hello session_id assignment_id slot_ids capabilities)

-- A slot of a heartbeat.
unfoldable pub slot_of : Option Json → Option SessionHeartbeatSlot
slot_of j = do
  v ← fields_of j
  slot_id ← id_of (property "slotId" v)
  lease_id ← nullable id_of (property "leaseId" v)
  active_ms ← bounded_integer 0 coordinator_max_lease_tenure_ms (property "activeMs" v)
  conflicts ← bounded_integer 0 max_safe_integer (property "conflicts" v)
  decisions ← bounded_integer 0 max_safe_integer (property "decisions" v)
  propagations ← bounded_integer 0 max_safe_integer (property "propagations" v)
  some (record {
    slot_id = slot_id;
    lease_id = lease_id;
    active_ms = active_ms;
    conflicts = conflicts;
    decisions = decisions;
    propagations = propagations;
  })

unfoldable pub session_heartbeat_of : Fields → Option ClientMessage
session_heartbeat_of v = do
  js ← array_of (property "slots" v)
  guard (leb (length js) coordinator_max_slots)
  slots ← each slot_of js
  guard (is_distinct (map (λ s. s.slot_id) slots))
  some (ClientMessage.session_heartbeat slots)

unfoldable pub split_of : Fields → Option ClientMessage
split_of v = do
  task_id ← id_of (property "taskId" v)
  lease_id ← id_of (property "leaseId" v)
  slot_id ← id_of (property "slotId" v)
  permit_id ← id_of (property "permitId" v)
  split_literal ← literal_of (property "splitLiteral" v)
  some (ClientMessage.split slot_id task_id lease_id permit_id split_literal)

abbrev yield_reasons : List (String × YieldReason)
yield_reasons =
    ("PAUSED", YieldReason.paused)
    ∷ ("SHUTDOWN", YieldReason.shutdown)
    ∷ ("UNSUPPORTED", YieldReason.unsupported)
    ∷ ("WORKER_ERROR", YieldReason.worker_error)
    ∷ []

unfoldable pub yield_of : Fields → Option ClientMessage
yield_of v = do
  task_id ← id_of (property "taskId" v)
  lease_id ← id_of (property "leaseId" v)
  slot_id ← id_of (property "slotId" v)
  reason ← one_of yield_reasons (property "reason" v)
  some (ClientMessage.yield slot_id task_id lease_id reason)

abbrev pub manifest_task : ResultManifest → String
manifest_task (ResultManifest.sat_model m) = m.common.task_id
manifest_task (ResultManifest.unsat_candidate m) = m.task_id
manifest_task (ResultManifest.unsat_proof m) = m.common.task_id

-- The manifest is of the kind that goes with the verdict, and of the evidence that is named.
abbrev pub is_evidence : Verdict → String → ResultManifest → Bool
is_evidence Verdict.sat hash (ResultManifest.sat_model m) = same_text m.artifact_sha256 hash
is_evidence Verdict.unsat hash (ResultManifest.unsat_candidate m) = true
is_evidence Verdict.unsat hash (ResultManifest.unsat_proof m) = same_text m.artifact_sha256 hash
is_evidence _ hash m = false

unfoldable pub result_of : Fields → Option ClientMessage
result_of v = do
  task_id ← id_of (property "taskId" v)
  lease_id ← id_of (property "leaseId" v)
  manifest ← parse_result_manifest (property "manifest" v)
  slot_id ← id_of (property "slotId" v)
  verdict ← one_of (("SAT", Verdict.sat) ∷ ("UNSAT", Verdict.unsat) ∷ []) (property "result" v)
  evidence ← sha256_of (property "evidenceSha256" v)
  guard (same_text (manifest_task manifest) task_id)
  guard (is_evidence verdict evidence manifest)
  some (ClientMessage.result slot_id task_id lease_id verdict evidence manifest)

pub data ClientType : Type 0 where
  hello session_heartbeat split yield result : ClientType

abbrev client_types : List (String × ClientType)
client_types =
    ("HELLO", ClientType.hello)
    ∷ ("SESSION_HEARTBEAT", ClientType.session_heartbeat)
    ∷ ("SPLIT", ClientType.split)
    ∷ ("YIELD", ClientType.yield)
    ∷ ("RESULT", ClientType.result)
    ∷ []

unfoldable pub body_of : Fields → ClientType → Option ClientMessage
body_of v ClientType.hello = hello_of v
body_of v ClientType.session_heartbeat = session_heartbeat_of v
body_of v ClientType.split = split_of v
body_of v ClientType.yield = yield_of v
body_of v ClientType.result = result_of v

-- The tests after that of the version.
unfoldable pub client_message_of : Fields → Option (MessageBase × ClientMessage)
client_message_of v = do
  base ← base_of v
  type ← one_of client_types (property "type" v)
  body ← body_of v type
  some (base, body)

abbrev pub parsed : {M : Type 0} → Option M → Parsed M
parsed none = Parsed.invalid_message
parsed (some m) = Parsed.message m

-- A record whose version is another asks for an upgrade.
unfoldable pub with_version : {M : Type 0} → (Fields → Option M) → Option Json → Parsed M
with_version read j = elim (fields_of j) [
  | none ↦ Parsed.invalid_message
  | some v ↦
      elim (bounded_integer public_job_protocol_version public_job_protocol_version
        (property "protocolVersion" v)) [
          | none ↦ Parsed.upgrade_required
          | some n ↦ parsed (read v)
        ]
]

-- `parseCoordinatorClientMessage`
unfoldable pub parse_coordinator_client_message : Json → Parsed (MessageBase × ClientMessage)
unfolding with_version
parse_coordinator_client_message j = with_version client_message_of (some j)

-- ===== src/Coordinator/State.antt =====
-- The rows and messages of worker/job-coordinator.ts and shared/coordinator-protocol.ts.
-- Ids, digests and object keys are texts that the code only compares: they are numbers here, and
-- the root task's id "root" is 0. An empty text (no object key) and NULL are `none`. Times are
-- milliseconds. The column `assumptions_json` holds the list that it encodes.
use hive_sat.Prelude.{ℕ, Bool, List, Option, ℤ}

pub data JobState : Type 0 where
  uploading queued running sat_verified unsat_certified unsat_owner_verified : JobState
  invalid unknown cancelled : JobState

pub data TaskState : Type 0 where
  ready leased split yielded sat_candidate verifying_sat sat_verified : TaskState
  unsat_candidate proof_pending verifying_unsat unsat_certified unsat_owner_verified : TaskState
  unknown cancelled : TaskState

pub data LeaseStatus : Type 0 where
  active expired split yielded result superseded cancelled : LeaseStatus

pub data PermitStatus : Type 0 where
  active consumed cancelled : PermitStatus

pub data ProofStatus : Type 0 where
  uploaded server_certified owner_check_required owner_verified invalid : ProofStatus

pub record JobRow : Type 0 where
  pub job_id : ℕ
  pub state : JobState
  pub owner_digest : ℕ
  pub upload_digest : Option ℕ
  pub formula_hash : ℕ
  pub variable_count : ℕ
  pub clause_count : ℕ
  pub literal_count : ℕ
  pub encoded_bytes : ℕ
  pub compressed_bytes : ℕ
  pub uploaded_bytes : Option ℕ
  pub object_key : Option ℕ
  pub created_at : ℕ
  pub expires_at : ℕ

pub record TaskRow : Type 0 where
  pub task_id : ℕ
  pub parent_task_id : Option ℕ
  pub depth : ℕ
  pub assumptions : List ℤ
  pub state : TaskState
  pub created_at : ℕ
  pub updated_at : ℕ
  pub lease_count : ℕ
  pub active_lease_id : Option ℕ
  pub proof_required : Bool

pub record LeaseRow : Type 0 where
  pub lease_id : ℕ
  pub task_id : ℕ
  pub session_id : ℕ
  pub slot_id : ℕ
  pub lease_count : ℕ
  pub issued_at : ℕ
  pub expires_at : ℕ
  pub maximum_expires_at : ℕ
  pub last_active_ms : ℕ
  pub status : LeaseStatus

pub record SplitPermitRow : Type 0 where
  pub permit_id : ℕ
  pub task_id : ℕ
  pub lease_id : ℕ
  pub session_id : ℕ
  pub slot_id : ℕ
  pub expires_at : ℕ
  pub status : PermitStatus

pub record ProofArtifactRow : Type 0 where
  pub artifact_id : ℕ
  pub task_id : ℕ
  pub lease_id : ℕ
  pub artifact_sha256 : ℕ
  pub compressed_bytes : ℕ
  pub decompressed_bytes : ℕ
  pub object_key : Option ℕ
  pub verification_status : ProofStatus
  pub created_at : ℕ

pub record ModelArtifactRow : Type 0 where
  pub lease_id : ℕ
  pub object_key : Option ℕ
  pub artifact_bytes : ℕ
  pub created_at : ℕ

pub record SessionProfileRow : Type 0 where
  pub session_id : ℕ
  pub conflict_budget : ℕ
  pub lease_duration_ms : ℕ
  pub updated_at : ℕ
  pub proof_generation : Bool

pub record ReliabilityRow : Type 0 where
  pub session_id : ℕ
  pub verified_results : ℕ
  pub invalid_results : ℕ
  pub verification_timeouts : ℕ
  pub quarantined : Bool
  pub updated_at : ℕ

-- The codes of an `ERROR` frame that the handlers below send.
pub data ErrorCode : Type 0 where
  stale_lease invalid_state split_not_needed task_limit : ErrorCode

pub data Action : Type 0 where
  session_heartbeat split yield result : Action

-- What a handler sends back. The random `messageId` and the constant protocol version are left out.
pub data Response : Type 0 where
  ack : (request action_time : ℕ) → Action → Option Bool → Response
  error : ErrorCode → (retryable : Bool) → (request : ℕ) → Response

pub record ProcessedRow : Type 0 where
  pub session_id : ℕ
  pub message_id : ℕ
  pub response : Response
  pub processed_at : ℕ

pub data ResultKind : Type 0 where
  sat unsat : ResultKind

-- A row of `results`, with the columns of its primary key and the flag that the code stores.
pub record ResultRow : Type 0 where
  pub task_id : ℕ
  pub lease_id : ℕ
  pub kind : ResultKind
  pub evidence_sha256 : ℕ
  pub received_at : ℕ
  pub stale : Bool
  pub session_id : ℕ

pub data VerificationStatus : Type 0 where
  pending valid_sat invalid_formula invalid_model verification_timeout : VerificationStatus

-- A row of `result_verifications`; the text of its reason is left out.
pub record VerificationRow : Type 0 where
  pub task_id : ℕ
  pub evidence_sha256 : ℕ
  pub lease_id : ℕ
  pub session_id : ℕ
  pub status : VerificationStatus
  pub created_at : ℕ
  pub updated_at : ℕ

-- The database of one job.
pub record Db : Type 0 where
  pub job : Option JobRow
  pub tasks : List TaskRow
  pub leases : List LeaseRow
  pub permits : List SplitPermitRow
  pub results : List ResultRow
  pub verifications : List VerificationRow
  pub processed : List ProcessedRow
  pub profiles : List SessionProfileRow
  pub reliability : List ReliabilityRow
  pub proofs : List ProofArtifactRow
  pub models : List ModelArtifactRow

pub record SplitMessage : Type 0 where
  pub message_id : ℕ
  pub slot_id : ℕ
  pub task_id : ℕ
  pub lease_id : ℕ
  pub permit_id : ℕ
  pub split_literal : ℤ

pub data YieldReason : Type 0 where
  paused shutdown unsupported worker_error : YieldReason

pub record YieldMessage : Type 0 where
  pub message_id : ℕ
  pub slot_id : ℕ
  pub task_id : ℕ
  pub lease_id : ℕ
  pub reason : YieldReason

pub record HeartbeatSlot : Type 0 where
  pub slot_id : ℕ
  pub lease_id : Option ℕ
  pub active_ms : ℕ

pub record SessionHeartbeatMessage : Type 0 where
  pub message_id : ℕ
  pub slots : List HeartbeatSlot

-- The evidence that a result manifest names.
pub data ManifestKind : Type 0 where
  sat_model : (artifact_id artifact_sha256 artifact_bytes variable_count : ℕ) → ManifestKind
  unsat_candidate : ManifestKind
  unsat_proof :
      (artifact_id artifact_sha256 compressed_bytes decompressed_bytes original_clause_count : ℕ)
      → List ℕ
      → ManifestKind

pub record Manifest : Type 0 where
  pub formula_hash : ℕ
  pub task_id : ℕ
  pub cube : List ℤ
  pub path_hash : ℕ
  pub solver_version : ℕ
  pub kind : ManifestKind

pub record ResultMessage : Type 0 where
  pub message_id : ℕ
  pub slot_id : ℕ
  pub task_id : ℕ
  pub lease_id : ℕ
  pub result : ResultKind
  pub evidence_sha256 : ℕ
  pub manifest : Manifest

-- A session's open socket, as `connectedSessions` returns it.
pub record Session : Type 0 where
  pub session_id : ℕ
  pub connected_at : ℕ
  pub slot_ids : List ℕ

abbrev pub root_id : ℕ
root_id = 0

abbrev pub heartbeat_interval_ms : ℕ
heartbeat_interval_ms = 60000

abbrev pub lease_duration_ms : ℕ
lease_duration_ms = 300000

abbrev pub lease_renew_threshold_ms : ℕ
lease_renew_threshold_ms = 180000

abbrev pub max_lease_tenure_ms : ℕ
max_lease_tenure_ms = 3600000

abbrev pub alarm_batch_size : ℕ
alarm_batch_size = 64

abbrev pub max_cube_depth : ℕ
max_cube_depth = 64

abbrev pub max_tasks : ℕ
max_tasks = 10000

abbrev pub max_frontier : ℕ
max_frontier = 16

abbrev pub split_seed_ms : ℕ
split_seed_ms = 1000

abbrev pub split_permit_ms : ℕ
split_permit_ms = 120000

abbrev pub processed_message_limit : ℕ
processed_message_limit = 2048

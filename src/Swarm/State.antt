-- ===== src/Swarm/State.antt =====
-- The rows of worker/swarm-directory.ts and the constants of worker/contracts.ts and
-- shared/swarm-protocol.ts. Ids and digests are texts that the code only compares: they are numbers.
-- Times and runtimes are milliseconds. The column `virtual_worker_ms` is REAL; the code only stores
-- sums and differences of whole numbers there.
use hive_sat.Prelude.{ℕ, Bool, List, Option}

-- CREATION_WINDOW_MS
abbrev pub creation_window_ms : ℕ
creation_window_ms = 86400000

-- MAX_CREATIONS_PER_WINDOW
abbrev pub max_creations_per_window : ℕ
max_creations_per_window = 3

-- SWARM_ASSIGNMENT_QUANTUM_MS
abbrev pub swarm_assignment_quantum_ms : ℕ
swarm_assignment_quantum_ms = 3600000

-- SWARM_ASSIGNMENT_ACTIVATION_MS
abbrev pub swarm_assignment_activation_ms : ℕ
swarm_assignment_activation_ms = 300000

-- SWARM_MAX_JOB_WORKERS
abbrev pub swarm_max_job_workers : ℕ
swarm_max_job_workers = 8

pub record ActiveJobRow : Type 0 where
  pub job_id : ℕ
  pub device_digest : ℕ
  pub network_digest : ℕ
  pub created_at : ℕ
  pub expires_at : ℕ
  pub eligible : Bool
  pub virtual_worker_ms : ℕ
  pub reserved_worker_ms : ℕ
  pub assigned_workers : ℕ
  pub last_service_at : ℕ

pub record CreationRow : Type 0 where
  pub job_id : ℕ
  pub device_digest : ℕ
  pub network_digest : ℕ
  pub created_at : ℕ

pub data AssignmentStatus : Type 0 where
  pending active complete expired cancelled : AssignmentStatus

pub record AssignmentRow : Type 0 where
  pub assignment_id : ℕ
  pub job_id : ℕ
  pub session_id : ℕ
  pub workers : ℕ
  pub reserved_worker_ms : ℕ
  pub actual_worker_ms : Option ℕ
  pub status : AssignmentStatus
  pub assigned_at : ℕ
  pub expires_at : ℕ

pub record ReplayRow : Type 0 where
  pub token_digest : ℕ
  pub expires_at : ℕ

-- The tables, and the time of the alarm, if one is set.
pub record Directory : Type 0 where
  pub jobs : List ActiveJobRow
  pub events : List CreationRow
  pub assignments : List AssignmentRow
  pub replays : List ReplayRow
  pub alarm : Option ℕ

pub record AdmissionInput : Type 0 where
  pub job_id : ℕ
  pub device_digest : ℕ
  pub network_digest : ℕ
  pub created_at : ℕ
  pub expires_at : ℕ
  pub global_ceiling : ℕ
  pub bypass_creation_rate_limit : Bool

-- `failed` is the exception of an INSERT whose primary key is taken.
pub data AdmissionResult : Type 0 where
  admitted : AdmissionResult
  global_job_limit active_job_limit : AdmissionResult
  creation_rate_limit : (retry_at : ℕ) → AdmissionResult
  failed : AdmissionResult

pub record PreviousSwarmAssignment : Type 0 where
  pub assignment_id : ℕ
  pub active_worker_ms : ℕ

pub record Assigned : Type 0 where
  pub assignment_id : ℕ
  pub job_id : ℕ
  pub workers : ℕ
  pub quantum_ms : ℕ
  pub reserved_worker_ms : ℕ
  pub conflict_budget : ℕ
  pub lease_target_ms : ℕ

-- `SwarmAssignmentResult`; `failed` is the exception of an INSERT whose primary key is taken.
pub data SwarmAssignmentResult : Type 0 where
  assigned : Assigned → SwarmAssignmentResult
  no_work invalid_assignment failed : SwarmAssignmentResult

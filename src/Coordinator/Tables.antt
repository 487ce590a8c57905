-- ===== src/Coordinator/Tables.antt =====
-- The look-ups of worker/job-coordinator.ts: `job`, `task`, `processedResponse`, `recordProcessed`,
-- `modelArtifact`, `parseAssumptions`, `toCubeTask`.
use hive_sat.Prelude.{
  ℕ, Bool, true, false, ◌&&◌, not, List, ◌∷◌, Option, none, some, all, find?, take, leb, ◌==◌, ℤ,
  is_zero, if◌then◌else◌,
}
pub use hive_sat.Prelude.Rows.{
  update, count, first_by, sort_by, insert_by, All-update, All-sort_by, length-update, holds,
  is_some,
}
use hive_sat.Coordinator.State.{
  JobState, TaskState, TaskRow, LeaseRow, LeaseStatus, PermitStatus, Db, Response, ProcessedRow,
  ModelArtifactRow, ProofArtifactRow, processed_message_limit,
}

-- ["QUEUED", "RUNNING"].includes(state)
abbrev pub is_open : JobState → Bool
is_open JobState.queued = true
is_open JobState.running = true
is_open _ = false

-- ["CANCELLED", "INVALID", "SAT_VERIFIED", "UNSAT_CERTIFIED", "UNSAT_OWNER_VERIFIED",
-- "UNKNOWN"].includes(state)
abbrev pub is_closed : JobState → Bool
is_closed JobState.uploading = false
is_closed JobState.queued = false
is_closed JobState.running = false
is_closed _ = true

abbrev pub is_uploading : JobState → Bool
is_uploading JobState.uploading = true
is_uploading _ = false

abbrev pub is_job_cancelled : JobState → Bool
is_job_cancelled JobState.cancelled = true
is_job_cancelled _ = false

abbrev pub is_ready : TaskState → Bool
is_ready TaskState.ready = true
is_ready _ = false

abbrev pub is_leased : TaskState → Bool
is_leased TaskState.leased = true
is_leased _ = false

abbrev pub is_split : TaskState → Bool
is_split TaskState.split = true
is_split _ = false

abbrev pub is_cancelled : TaskState → Bool
is_cancelled TaskState.cancelled = true
is_cancelled _ = false

abbrev pub is_verifying_sat : TaskState → Bool
is_verifying_sat TaskState.verifying_sat = true
is_verifying_sat _ = false

abbrev pub is_verifying_unsat : TaskState → Bool
is_verifying_unsat TaskState.verifying_unsat = true
is_verifying_unsat _ = false

-- UNSAT_CERTIFIED or UNSAT_OWNER_VERIFIED.
abbrev pub is_unsat : TaskState → Bool
is_unsat TaskState.unsat_certified = true
is_unsat TaskState.unsat_owner_verified = true
is_unsat _ = false

abbrev pub is_active : LeaseStatus → Bool
is_active LeaseStatus.active = true
is_active _ = false

abbrev pub is_permit_active : PermitStatus → Bool
is_permit_active PermitStatus.active = true
is_permit_active _ = false

-- `task(taskId)`.
unfoldable pub task : ℕ → List TaskRow → Option TaskRow
task id tasks = find? (λ t. t.task_id == id) tasks

-- SELECT * FROM leases WHERE lease_id = ?
abbrev pub lease_by_id : ℕ → List LeaseRow → Option LeaseRow
lease_by_id id leases = find? (λ l. l.lease_id == id) leases

-- `modelArtifact(leaseId)`.
unfoldable pub model_artifact : ℕ → List ModelArtifactRow → Option ModelArtifactRow
model_artifact id models = find? (λ m. m.lease_id == id) models

abbrev pub proof_by_id : ℕ → List ProofArtifactRow → Option ProofArtifactRow
proof_by_id id proofs = find? (λ p. p.artifact_id == id) proofs

-- `parseAssumptions`: `none` is the exception on a stored literal 0.
abbrev pub parse_assumptions : List ℤ → Option (List ℤ)
parse_assumptions cube = if all (λ l. not (is_zero l)) cube then some cube else none

pub data Purpose : Type 0 where
  search_cube proof_finisher : Purpose

pub record CubeTask : Type 0 where
  pub task_id : ℕ
  pub parent_task_id : Option ℕ
  pub depth : ℕ
  pub assumptions : List ℤ
  pub purpose : Purpose

-- `toCubeTask`.
abbrev pub to_cube_task : TaskRow → CubeTask
to_cube_task t = record {
  task_id = t.task_id;
  parent_task_id = t.parent_task_id;
  depth = t.depth;
  assumptions = t.assumptions;
  purpose = if t.proof_required then proof_finisher else search_cube;
}

-- `processedResponse`.
unfoldable pub processed_response : ℕ → ℕ → List ProcessedRow → Option Response
processed_response session message rows =
    elim (find? (λ r. (r.session_id == session) && (r.message_id == message)) rows) [
      | none ↦ none
      | some r ↦ some r.response
    ]

-- DELETE of all but the `processed_message_limit` latest rows.
unfoldable pub prune_processed : List ProcessedRow → List ProcessedRow
prune_processed rows =
    take processed_message_limit (sort_by (λ a b. leb b.processed_at a.processed_at) rows)

-- `recordProcessed`: INSERT OR IGNORE, then the pruning.
unfoldable pub record_processed : ℕ → ℕ → Response → ℕ → Db → Db
record_processed session message response now db =
    let row : ProcessedRow = record {
      session_id = session;
      message_id = message;
      response = response;
      processed_at = now;
    } in
    let rows =
      if is_some (processed_response session message db.processed)
      then db.processed
      else row ∷ db.processed in
    record db { processed = prune_processed rows }

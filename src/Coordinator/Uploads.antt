-- ===== src/Coordinator/Uploads.antt =====
-- The job's own operations in worker/job-coordinator.ts: `initialize`, the uploads, `cancel`,
-- `confirmOwnerProof` and `rotateOwnerToken`. A digest is 64 hexadecimal digits, so
-- `fixedTimeHexEqual` is an equation of numbers. The store of the artifacts is outside: a function
-- that waits for it is split in what runs before and after, and its outcome is an argument.
pub mod Answers
pub mod Budget
pub mod Tokens
use hive_sat.Prelude.{
  ℕ, zero, suc, ◌+◌, ◌-◌, Bool, true, false, ◌&&◌, ◌||◌, not, List, [], ◌∷◌, Option, none, some,
  any, find?, ltb, leb, ◌==◌, if◌then◌else◌,
}
use hive_sat.Coordinator.State.{
  JobState, JobRow, TaskState, TaskRow, LeaseRow, LeaseStatus, ProofArtifactRow, ProofStatus,
  ModelArtifactRow, Db, root_id,
}
use hive_sat.Coordinator.Tables.{
  update, holds, is_some, is_closed, is_uploading, is_job_cancelled, is_leased, is_cancelled,
  is_verifying_unsat, is_active, task, lease_by_id, model_artifact, proof_by_id, CubeTask,
  to_cube_task,
}
use hive_sat.Coordinator.Coverage.{Verdict, set_job_state, propagate_unsat_coverage}
use hive_sat.Coordinator.Results.{set_proof_status}

abbrev pub max_sat_model_artifact_bytes : ℕ
max_sat_model_artifact_bytes = 524288

abbrev pub max_unsat_proof_compressed_bytes : ℕ
max_unsat_proof_compressed_bytes = 26214400

abbrev pub max_unsat_proof_decompressed_bytes : ℕ
max_unsat_proof_decompressed_bytes = 134217728

pub data Code : Type 0 where
  not_found invalid_token invalid_state invalid_body already_uploaded storage_unavailable : Code
  proof_budget_exhausted already_initialized : Code

pub data Result {ℓ} (A : Type ℓ) : Type ℓ where
  ok : A → Result A
  err : Code → Result A

pub record FormulaDeclaration : Type 0 where
  pub hash : ℕ
  pub variable_count : ℕ
  pub clause_count : ℕ
  pub literal_count : ℕ
  pub encoded_bytes : ℕ
  pub compressed_bytes : ℕ

pub record InitializeJobInput : Type 0 where
  pub job_id : ℕ
  pub owner_digest : ℕ
  pub upload_digest : ℕ
  pub formula : FormulaDeclaration
  pub created_at : ℕ
  pub expires_at : ℕ

abbrev pub new_job : InitializeJobInput → JobRow
new_job i = record {
  job_id = i.job_id;
  state = JobState.uploading;
  owner_digest = i.owner_digest;
  upload_digest = some i.upload_digest;
  formula_hash = i.formula.hash;
  variable_count = i.formula.variable_count;
  clause_count = i.formula.clause_count;
  literal_count = i.formula.literal_count;
  encoded_bytes = i.formula.encoded_bytes;
  compressed_bytes = i.formula.compressed_bytes;
  uploaded_bytes = none;
  object_key = none;
  created_at = i.created_at;
  expires_at = i.expires_at;
}

abbrev pub root_task : ℕ → TaskRow
root_task now = record {
  task_id = root_id;
  parent_task_id = none;
  depth = 0;
  assumptions = [];
  state = TaskState.ready;
  created_at = now;
  updated_at = now;
  lease_count = 0;
  active_lease_id = none;
  proof_required = false;
}

abbrev initialize_job : InitializeJobInput → Option JobRow → Db → Db × Result (Unit {0})
initialize_job i (some job) db =
    if job.job_id == i.job_id && job.formula_hash == i.formula.hash
    then (db, ok tt)
    else (db, err already_initialized)
initialize_job i none db =
    (record db { job = some (new_job i); tasks = root_task i.created_at ∷ db.tasks }, ok tt)

-- `initialize`; the error is its exception.
unfoldable pub initialize : InitializeJobInput → Db → Db × Result (Unit {0})
initialize i db = initialize_job i db.job db

abbrev authorize_job_upload : ℕ → Option JobRow → Result JobRow
authorize_job_upload digest none = err not_found
authorize_job_upload digest (some job) =
    if not (is_uploading job.state)
    then err invalid_state
    else if holds job.upload_digest digest
    then ok job
    else err invalid_token

-- `authorizeUpload`, with the job's row for what it returns of it.
unfoldable pub authorize_upload : ℕ → Db → Result JobRow
authorize_upload digest db = authorize_job_upload digest db.job

pub data PutOutcome : Type 0 where
  stored length_mismatch unavailable : PutOutcome

abbrev queue_job : ℕ → ℕ → ℕ → Option JobRow → Option JobRow
queue_job digest bytes key none = none
queue_job digest bytes key (some job) =
    if is_uploading job.state && holds job.upload_digest digest
    then some (record job {
      state = JobState.queued;
      uploaded_bytes = some bytes;
      upload_digest = none;
      object_key = some key;
    })
    else some job

abbrev awaits : ℕ → Option JobRow → Bool
awaits digest none = false
awaits digest (some job) = is_uploading job.state && holds job.upload_digest digest

-- `storeFormula` before the wait for the store.
unfoldable pub store_formula_check : ℕ → ℕ → Db → Result JobRow
unfolding authorize_upload
store_formula_check digest length db = elim (authorize_upload digest db) [
  | err c ↦ err c
  | ok job ↦ if length == job.compressed_bytes then ok job else err invalid_body
]

-- `storeFormula` after the wait: the token may have been used meanwhile.
unfoldable pub store_formula_commit : ℕ → ℕ → ℕ → PutOutcome → Db → Db × Result ℕ
store_formula_commit digest length key length_mismatch db = (db, err invalid_body)
store_formula_commit digest length key unavailable db = (db, err storage_unavailable)
store_formula_commit digest length key stored db =
    if awaits digest db.job
    then (record db { job = queue_job digest length key db.job }, ok length)
    else (db, err invalid_state)

abbrev authorize_model : ℕ → ℕ → Option JobRow → Option LeaseRow → List TaskRow → Result CubeTask
authorize_model lease_id now (some job) (some l) tasks = elim (task l.task_id tasks) [
  | none ↦ err not_found
  | some t ↦
      if leb job.expires_at now || is_closed job.state || is_cancelled t.state
      then err invalid_state
      else ok (to_cube_task t)
]
authorize_model lease_id now job l tasks = err not_found

-- `authorizeModelUpload`.
pub authorize_model_upload : ℕ → ℕ → Db → Result CubeTask
authorize_model_upload lease_id now db =
    authorize_model lease_id now db.job (lease_by_id lease_id db.leases) db.tasks

-- `storeModel` before the wait.
pub store_model_check : ℕ → ℕ → ℕ → Db → Result CubeTask
unfolding authorize_model_upload
store_model_check lease_id length now db = elim (authorize_model_upload lease_id now db) [
  | err c ↦ err c
  | ok t ↦
      if ltb length 12 || ltb max_sat_model_artifact_bytes length
      then err invalid_body
      else if is_some (model_artifact lease_id db.models)
      then err already_uploaded
      else ok t
]

abbrev is_ok {ℓ} : {A : Type ℓ} → Result A → Bool
is_ok (ok x) = true
is_ok (err c) = false

-- `storeModel` after the wait: the first artifact of a lease stays.
pub store_model_commit : ℕ → ℕ → ℕ → ℕ → PutOutcome → Db → Db × Result ℕ
unfolding authorize_model_upload
store_model_commit lease_id length key now length_mismatch db = (db, err invalid_body)
store_model_commit lease_id length key now unavailable db = (db, err storage_unavailable)
store_model_commit lease_id length key now stored db =
    if not (is_ok (authorize_model_upload lease_id now db))
    then (db, err invalid_state)
    else if is_some (model_artifact lease_id db.models)
    then (db, err already_uploaded)
    else (
      record db {
        models =
            record {
              lease_id = lease_id;
              object_key = some key;
              artifact_bytes = length;
              created_at = now;
            }
            ∷ db.models;
      },
      ok length,
    )

-- SELECT SUM(compressed_bytes) FROM proof_artifacts.
unfoldable pub proof_bytes : List ProofArtifactRow → ℕ
proof_bytes [] = 0
proof_bytes (p ∷ ps) = p.compressed_bytes + proof_bytes ps

-- What an authorized proof upload may still store.
pub record ProofRoom : Type 0 where
  pub task : CubeTask
  pub maximum_compressed_bytes : ℕ

abbrev authorize_proof : ℕ → ℕ → ℕ → Option JobRow → Option LeaseRow → Db → Result ProofRoom
authorize_proof lease_id decompressed now (some job) (some l) db = elim (task l.task_id db.tasks) [
  | none ↦ err not_found
  | some t ↦
      if not (is_active l.status)
        || not (holds t.active_lease_id lease_id)
        || not t.proof_required
        || not (is_leased t.state)
        || leb job.expires_at now
        || decompressed == 0
        || ltb max_unsat_proof_decompressed_bytes decompressed
      then err invalid_state
      else if leb max_unsat_proof_compressed_bytes (proof_bytes db.proofs)
      then err proof_budget_exhausted
      else ok (record {
        task = to_cube_task t;
        maximum_compressed_bytes = max_unsat_proof_compressed_bytes - proof_bytes db.proofs;
      })
]
authorize_proof lease_id decompressed now job l db = err not_found

-- `authorizeProofUpload`.
unfoldable pub authorize_proof_upload : ℕ → ℕ → ℕ → Db → Result ProofRoom
unfolding proof_bytes
authorize_proof_upload lease_id decompressed now db =
    authorize_proof lease_id decompressed now db.job (lease_by_id lease_id db.leases) db

-- `storeProof` before the wait.
unfoldable pub store_proof_check : ℕ → ℕ → ℕ → ℕ → Db → Result CubeTask
unfolding authorize_proof_upload
store_proof_check lease_id length decompressed now db =
    elim (authorize_proof_upload lease_id decompressed now db) [
      | err c ↦ err c
      | ok room ↦
          if length == 0 || ltb room.maximum_compressed_bytes length
          then err invalid_body
          else ok room.task
    ]

-- `storeProof` after the wait, with the outcome of the second authorization: the first proof of a
-- lease stays.
abbrev pub committed : ℕ → ℕ → ℕ → ℕ → ℕ → ℕ → CubeTask → Result ProofRoom → Db → Db × Result ℕ
committed lease_id length sha decompressed key now t (err c) db = (db, err c)
committed lease_id length sha decompressed key now t (ok room) db =
    if ltb room.maximum_compressed_bytes length
    then (db, err proof_budget_exhausted)
    else if is_some (proof_by_id lease_id db.proofs)
    then (db, err already_uploaded)
    else (
      record db {
        proofs =
            record {
              artifact_id = lease_id;
              task_id = t.task_id;
              lease_id = lease_id;
              artifact_sha256 = sha;
              compressed_bytes = length;
              decompressed_bytes = decompressed;
              object_key = some key;
              verification_status = ProofStatus.uploaded;
              created_at = now;
            }
            ∷ db.proofs;
      },
      ok length,
    )

-- `storeProof` after the wait: the budget is read again.
unfoldable pub store_proof_commit :
    ℕ → ℕ → ℕ → ℕ → ℕ → ℕ → CubeTask → PutOutcome → Db → Db × Result ℕ
unfolding authorize_proof_upload
store_proof_commit lease_id length sha decompressed key now t length_mismatch db =
    (db, err invalid_body)
store_proof_commit lease_id length sha decompressed key now t unavailable db =
    (db, err storage_unavailable)
store_proof_commit lease_id length sha decompressed key now t stored db =
    committed lease_id length sha decompressed key now t
      (authorize_proof_upload lease_id decompressed now db) db

-- `recordProofUpload`, for a proof whose object has no key; INSERT OR IGNORE.
pub record_proof_upload : ℕ → ℕ → ℕ → ℕ → ℕ → Db → Db × Bool
unfolding authorize_proof_upload
record_proof_upload lease_id sha compressed decompressed now db =
    elim (authorize_proof_upload lease_id decompressed now db) [
      | err c ↦ (db, false)
      | ok room ↦
          if compressed == 0 || ltb room.maximum_compressed_bytes compressed
          then (db, false)
          else if is_some (proof_by_id lease_id db.proofs)
          then (db, true)
          else (
            record db {
              proofs =
                  record {
                    artifact_id = lease_id;
                    task_id = room.task.task_id;
                    lease_id = lease_id;
                    artifact_sha256 = sha;
                    compressed_bytes = compressed;
                    decompressed_bytes = decompressed;
                    object_key = none;
                    verification_status = ProofStatus.uploaded;
                    created_at = now;
                  }
                  ∷ db.proofs;
            },
            true,
          )
    ]

abbrev is_owner_check : ProofStatus → Bool
is_owner_check ProofStatus.owner_check_required = true
is_owner_check _ = false

abbrev parent_of : Option TaskRow → Option ℕ
parent_of none = none
parent_of (some t) = t.parent_task_id

-- The transaction of `confirmOwnerProof`.
unfoldable pub confirm_proof : ProofArtifactRow → ℕ → Db → Db × Option Verdict
confirm_proof p now db =
    let marked : Db = record db {
      proofs = set_proof_status p.artifact_id ProofStatus.owner_verified db.proofs;
      tasks =
          update (λ t. t.task_id == p.task_id && is_verifying_unsat t.state)
            (λ t. record t { state = TaskState.unsat_owner_verified; updated_at = now }) db.tasks;
    } in
    propagate_unsat_coverage (parent_of (task p.task_id marked.tasks)) now marked

abbrev confirm :
    ℕ → ℕ → ℕ → Option JobRow → Option ProofArtifactRow → Db → Db × Result (Option Verdict)
confirm owner sha now (some job) (some p) db =
    if not (owner == job.owner_digest)
    then (db, err invalid_token)
    else if not (is_owner_check p.verification_status && sha == p.artifact_sha256)
    then (db, err invalid_state)
    else (let (db', v) = confirm_proof p now db in (db', ok v))
confirm owner sha now job p db = (db, err not_found)

-- `confirmOwnerProof`.
unfoldable pub confirm_owner_proof : ℕ → ℕ → ℕ → ℕ → Db → Db × Result (Option Verdict)
unfolding confirm_proof
confirm_owner_proof owner artifact_id sha now db =
    confirm owner sha now db.job (proof_by_id artifact_id db.proofs) db

-- The transaction of `cancel`.
unfoldable pub cancel_all : JobRow → ℕ → Db → Db
cancel_all job now db = record db {
  job =
      some (record job { state = JobState.cancelled; uploaded_bytes = none; upload_digest = none });
  tasks =
      update (λ t. true)
        (λ t. record t { state = TaskState.cancelled; active_lease_id = none; updated_at = now })
        db.tasks;
  leases =
      update (λ l. is_active l.status) (λ l. record l { status = LeaseStatus.cancelled }) db.leases;
}

abbrev cancel_job : ℕ → ℕ → Option JobRow → Db → Db × Result Bool
cancel_job owner now none db = (db, err not_found)
cancel_job owner now (some job) db =
    if not (owner == job.owner_digest)
    then (db, err invalid_token)
    else if is_job_cancelled job.state
    then (db, ok false)
    else (cancel_all job now db, ok true)

-- `cancel`: the result says whether the job changed.
unfoldable pub cancel : ℕ → ℕ → Db → Db × Result Bool
unfolding cancel_all
cancel owner now db = cancel_job owner now db.job db

abbrev rotate : ℕ → ℕ → ℕ → Option JobRow → Db → Db × Bool
rotate owner next now none db = (db, false)
rotate owner next now (some job) db =
    if leb job.expires_at now || not (owner == job.owner_digest)
    then (db, false)
    else (record db { job = some (record job { owner_digest = next }) }, true)

-- `rotateOwnerToken`.
pub rotate_owner_token : ℕ → ℕ → ℕ → Db → Db × Bool
rotate_owner_token owner next now db = rotate owner next now db.job db

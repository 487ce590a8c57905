-- ===== src/Coordinator/Results.antt =====
-- `handleResult`, `handleUnsatResult` and `handleUnsatProof` of worker/job-coordinator.ts. Each
-- waits twice, for the hash of the cube and for a verifier: `receive_result` is what runs before the
-- first wait, `resume_result` what runs between the two, and `finish_sat` and `finish_unsat` what runs
-- after the second, each on a database that other messages may have changed. `path_hash` is SHA-256
-- over the cube.
pub mod Answers
use hive_sat.Prelude.{
  ℕ, zero, suc, ◌+◌, Bool, true, false, ◌&&◌, ◌||◌, not, List, [], ◌∷◌, Option, none, some, filter,
  find?, any, length, ltb, leb, ◌==◌, ℤ, int_eq, if◌then◌else◌,
}
use hive_sat.Coordinator.State.{
  JobState, JobRow, TaskState, TaskRow, LeaseRow, LeaseStatus, SplitPermitRow, PermitStatus,
  ProofArtifactRow, ProofStatus, ReliabilityRow, ResultKind, sat, unsat, ResultRow,
  VerificationStatus, VerificationRow, Db, Response, ack, error, Action, ErrorCode, stale_lease,
  invalid_state, ManifestKind, sat_model, unsat_candidate, unsat_proof, Manifest, ResultMessage,
  root_id,
}
use hive_sat.Coordinator.Tables.{
  update, count, holds, is_some, is_closed, is_leased, is_cancelled, is_verifying_sat, is_active,
  is_permit_active, task, processed_response, record_processed,
}
use hive_sat.Coordinator.Leases.{cancel_permits, release_quarantined_session_leases}
use hive_sat.Coordinator.Coverage.{
  Verdict, set_job_state, supersede_leases, propagate_unsat_coverage,
}

-- What a handler keeps across the wait: the rows as it read them.
pub record Pending : Type 0 where
  pub session_id : ℕ
  pub message : ResultMessage
  pub task : TaskRow
  pub stale : Bool

-- What `handleResult` keeps while the path is hashed.
pub record Reading : Type 0 where
  pub session_id : ℕ
  pub message : ResultMessage
  pub lease : LeaseRow
  pub task : TaskRow
  pub job : JobRow
  pub now : ℕ

pub data Begun : Type 0 where
  answered : Response → Begun
  hash_path : Reading → Begun
  verify_sat verify_unsat : Pending → Begun

-- JSON.stringify(a) === JSON.stringify(b), on lists of integers.
unfoldable pub equal_cube : List ℤ → List ℤ → Bool
equal_cube [] [] = true
equal_cube [] (y ∷ ys) = false
equal_cube (x ∷ xs) [] = false
equal_cube (x ∷ xs) (y ∷ ys) = int_eq x y && equal_cube xs ys

-- SET state, active_lease_id = NULL, updated_at WHERE task_id = ?
abbrev pub put_task_state : ℕ → TaskState → ℕ → List TaskRow → List TaskRow
put_task_state id s now tasks =
    update (λ t. t.task_id == id)
      (λ t. record t { state = s; active_lease_id = none; updated_at = now }) tasks

-- SET status = CASE WHEN lease_id = ? THEN 'RESULT' ELSE 'SUPERSEDED' END WHERE task_id = ? AND
-- status = 'ACTIVE'
abbrev pub settle_leases : ℕ → ℕ → List LeaseRow → List LeaseRow
settle_leases lease_id task_id leases =
    update (λ l. l.task_id == task_id && is_active l.status)
      (λ l. record l {
        status = if l.lease_id == lease_id then LeaseStatus.result else LeaseStatus.superseded;
      })
      leases

-- INSERT OR IGNORE INTO results.
abbrev pub add_result : ResultKind → ResultMessage → ℕ → Bool → ℕ → List ResultRow → List ResultRow
add_result kind m session stale now rows =
    if any
      (λ r.
        r.task_id == m.task_id
        && r.lease_id == m.lease_id
        && same r.kind kind
        && r.evidence_sha256 == m.evidence_sha256)
      rows
    then rows
    else record {
      task_id = m.task_id;
      lease_id = m.lease_id;
      kind = kind;
      evidence_sha256 = m.evidence_sha256;
      received_at = now;
      stale = stale;
      session_id = session;
    }
      ∷ rows
  where
    same : ResultKind → ResultKind → Bool
    same sat sat = true
    same unsat unsat = true
    same _ _ = false

-- INSERT OR IGNORE INTO result_verifications.
abbrev pub add_verification : ResultMessage → ℕ → ℕ → List VerificationRow → List VerificationRow
add_verification m session now rows =
    if any (λ r. r.task_id == m.task_id && r.evidence_sha256 == m.evidence_sha256) rows
    then rows
    else record {
      task_id = m.task_id;
      evidence_sha256 = m.evidence_sha256;
      lease_id = m.lease_id;
      session_id = session;
      status = VerificationStatus.pending;
      created_at = now;
      updated_at = now;
    }
      ∷ rows

-- The first transaction of a SAT result.
unfoldable pub begin_sat : ℕ → ResultMessage → TaskRow → Bool → ℕ → Db → Db
begin_sat session m t stale now db = record db {
  results = add_result sat m session stale now db.results;
  verifications = add_verification m session now db.verifications;
  tasks = put_task_state t.task_id TaskState.verifying_sat now db.tasks;
  leases = settle_leases m.lease_id m.task_id db.leases;
}

-- The transaction of an `UNSAT_CANDIDATE_V1` result: a proof is asked for, if the lease is current.
pub take_candidate : ℕ → ResultMessage → LeaseRow → TaskRow → Bool → ℕ → Db → Db
take_candidate session m l t stale now db =
    let noted : Db = record db { results = add_result unsat m session stale now db.results } in
    if is_active l.status && holds t.active_lease_id l.lease_id && not (is_verifying_sat t.state)
    then record noted {
      tasks =
          update (λ r. r.task_id == t.task_id)
            (λ r. record r {
              state = TaskState.ready;
              proof_required = true;
              active_lease_id = none;
              updated_at = now;
            })
            db.tasks;
      leases = settle_leases l.lease_id t.task_id db.leases;
      permits = cancel_permits l.lease_id db.permits;
    }
    else noted

-- The first transaction of an `UNSAT_PROOF_V1` result.
pub begin_unsat : LeaseRow → TaskRow → ℕ → Db → Db
begin_unsat l t now db = record db {
  tasks = put_task_state t.task_id TaskState.verifying_unsat now db.tasks;
  leases = settle_leases l.lease_id t.task_id db.leases;
  permits =
      update (λ p. p.task_id == t.task_id && is_permit_active p.status)
        (λ p. record p { status = PermitStatus.cancelled }) db.permits;
}

abbrev refuse : ResultMessage → ErrorCode → Db → Db × Begun
refuse m code db = (db, answered (error code false m.message_id))

-- The stored proof that the manifest names.
abbrev pub artifact_matches : ℕ → ℕ → ℕ → ℕ → ℕ → ProofArtifactRow → Bool
artifact_matches id task_id sha compressed decompressed p =
    p.artifact_id == id
    && p.task_id == task_id
    && p.artifact_sha256 == sha
    && p.compressed_bytes == compressed
    && p.decompressed_bytes == decompressed

abbrev pub pend : ℕ → ResultMessage → TaskRow → Bool → Pending
pend session m t stale = record { session_id = session; message = m; task = t; stale = stale }

-- `handleUnsatResult` up to the wait.
abbrev begin_unsat_result :
    ManifestKind → ℕ → ResultMessage → LeaseRow → TaskRow → Bool → ℕ → Db → Db × Begun
begin_unsat_result (unsat_proof id sha compressed decompressed clauses ids) session m l t stale now
      db =
    if t.proof_required
      && id == l.lease_id
      && any (artifact_matches id t.task_id sha compressed decompressed) db.proofs
    then (begin_unsat l t now db, verify_unsat (pend session m t stale))
    else refuse m invalid_state db
begin_unsat_result unsat_candidate session m l t stale now db =
    if t.proof_required
    then refuse m invalid_state db
    else (let response = ack m.message_id now Action.result (some stale) in
        (
          record_processed session m.message_id response now
              (take_candidate session m l t stale now db),
          answered response,
        ))
begin_unsat_result (sat_model _ _ _ _) session m l t stale now db = refuse m invalid_state db

abbrev begin_sat_result :
    ManifestKind → ℕ → ResultMessage → JobRow → TaskRow → Bool → ℕ → Db → Db × Begun
begin_sat_result (sat_model id sha bytes variables) session m job t stale now db =
    if id == m.lease_id && variables == job.variable_count
    then (begin_sat session m t stale now db, verify_sat (pend session m t stale))
    else refuse m invalid_state db
begin_sat_result _ session m job t stale now db = refuse m invalid_state db

abbrev begin_kind :
    ResultKind → ℕ → ResultMessage → JobRow → LeaseRow → TaskRow → Bool → ℕ → Db → Db × Begun
begin_kind unsat session m job l t stale now db =
    begin_unsat_result m.manifest.kind session m l t stale now db
begin_kind sat session m job l t stale now db =
    begin_sat_result m.manifest.kind session m job t stale now db

-- The manifest names the formula and the task.
abbrev pub names_task : Manifest → JobRow → TaskRow → Bool
names_task manifest job t =
    manifest.formula_hash == job.formula_hash && manifest.task_id == t.task_id

-- The manifest names the cube, by its hash and as it is.
abbrev pub names_cube : (List ℤ → ℕ) → Manifest → TaskRow → Bool
names_cube path_hash manifest t =
    manifest.path_hash == path_hash t.assumptions && equal_cube manifest.cube t.assumptions

abbrev pub is_stale : LeaseRow → TaskRow → ℕ → Bool
is_stale l t now =
    not (is_active l.status) || leb l.expires_at now || not (holds t.active_lease_id l.lease_id)

abbrev pub read_leased : ℕ → ResultMessage → ℕ → LeaseRow → Option TaskRow → Option JobRow → Begun
read_leased session m now l (some t) (some job) =
    if leb job.expires_at now || is_closed job.state || is_cancelled t.state
    then answered (error invalid_state false m.message_id)
    else if not (names_task m.manifest job t)
    then answered (error invalid_state false m.message_id)
    else hash_path
        (record { session_id = session; message = m; lease = l; task = t; job = job; now = now })
read_leased session m now l t job = answered (error invalid_state false m.message_id)

-- `handleResult` up to the hash, which only reads: a lease that has ended is no obstacle here.
unfoldable pub receive_result : ℕ → ResultMessage → ℕ → Db → Begun
receive_result session m now db = elim (processed_response session m.message_id db.processed) [
  | some r ↦ answered r
  | none ↦
      elim (find?
        (λ l. l.lease_id == m.lease_id && l.task_id == m.task_id && l.session_id == session)
        db.leases) [
          | none ↦ answered (error stale_lease false m.message_id)
          | some l ↦
              if l.slot_id == m.slot_id
              then read_leased session m now l (task m.task_id db.tasks) db.job
              else answered (error stale_lease false m.message_id)
        ]
]

-- `handleResult` from the hash up to the wait for a verifier, with the rows that were read before.
unfoldable pub resume_result : (List ℤ → ℕ) → Reading → Db → Db × Begun
unfolding begin_sat take_candidate begin_unsat record_processed
resume_result path_hash r db =
    if not (names_cube path_hash r.message.manifest r.task)
    then refuse r.message invalid_state db
    else begin_kind r.message.result r.session_id r.message r.job r.lease r.task
        (is_stale r.lease r.task r.now) r.now db

pub data SatVerdict : Type 0 where
  valid_sat invalid_formula invalid_model verification_timeout : SatVerdict

pub data UnsatVerdict : Type 0 where
  valid_unsat owner_check_required invalid_formula invalid_proof verification_timeout : UnsatVerdict

-- INSERT ... ON CONFLICT(session_id) DO UPDATE of `session_reliability`.
abbrev pub note_session : ℕ → ℕ → ℕ → ℕ → Bool → ℕ → List ReliabilityRow → List ReliabilityRow
note_session session verified invalid timeouts quarantined now rows =
    if any (λ r. r.session_id == session) rows
    then update (λ r. r.session_id == session)
        (λ r. record r {
          verified_results = r.verified_results + verified;
          invalid_results = r.invalid_results + invalid;
          verification_timeouts = r.verification_timeouts + timeouts;
          quarantined = r.quarantined || quarantined;
          updated_at = now;
        })
        rows
    else record {
      session_id = session;
      verified_results = verified;
      invalid_results = invalid;
      verification_timeouts = timeouts;
      quarantined = quarantined;
      updated_at = now;
    }
      ∷ rows

abbrev pub is_pending : VerificationStatus → Bool
is_pending VerificationStatus.pending = true
is_pending _ = false

abbrev pub verdict_status : SatVerdict → VerificationStatus
verdict_status valid_sat = VerificationStatus.valid_sat
verdict_status SatVerdict.invalid_formula = VerificationStatus.invalid_formula
verdict_status invalid_model = VerificationStatus.invalid_model
verdict_status SatVerdict.verification_timeout = VerificationStatus.verification_timeout

abbrev pub close_verification :
    Pending → SatVerdict → ℕ → List VerificationRow → List VerificationRow
close_verification p v now rows =
    update
      (λ r.
        r.task_id == p.task.task_id
        && r.evidence_sha256 == p.message.evidence_sha256
        && is_pending r.status)
      (λ r. record r { status = verdict_status v; updated_at = now }) rows

abbrev pub is_sat_verified : TaskState → Bool
is_sat_verified TaskState.sat_verified = true
is_sat_verified _ = false

-- The job is solved: its other tasks are cancelled.
unfoldable pub accept_sat : Pending → ℕ → Db → Db
accept_sat p now db = record db {
  reliability = note_session p.session_id 1 0 0 false now db.reliability;
  tasks =
      update (λ t. t.task_id == p.task.task_id || t.task_id == root_id)
        (λ t. record t { state = TaskState.sat_verified; active_lease_id = none; updated_at = now })
        (update (λ t. not (is_cancelled t.state || is_sat_verified t.state))
          (λ t. record t { state = TaskState.cancelled; active_lease_id = none; updated_at = now })
          db.tasks);
  job = set_job_state JobState.sat_verified db.job;
  leases = supersede_leases db.leases;
}

-- The stored formula is no formula.
pub reject_formula : ℕ → Db → Db
reject_formula now db = record db {
  job = set_job_state JobState.invalid db.job;
  tasks =
      update (λ t. not (is_cancelled t.state))
        (λ t. record t { state = TaskState.unknown; active_lease_id = none; updated_at = now })
        db.tasks;
  leases = supersede_leases db.leases;
}

abbrev reopen_task : Pending → Bool → ℕ → Db → Db
reopen_task p invalid now db = record db {
  reliability =
      note_session p.session_id 0 (if invalid then 1 else 0) (if invalid then 0 else 1) invalid now
        db.reliability;
  tasks =
      update (λ t. t.task_id == p.task.task_id && is_verifying_sat t.state)
        (λ t. record t { state = TaskState.ready; active_lease_id = none; updated_at = now })
        db.tasks;
}

-- The task of a SAT claim that did not hold is offered again; the session of a wrong model is
-- quarantined and loses its leases.
pub reopen_sat : Pending → Bool → ℕ → Db → Db
reopen_sat p true now db =
    release_quarantined_session_leases p.session_id now (reopen_task p true now db)
reopen_sat p false now db = reopen_task p false now db

abbrev settle_sat : Pending → SatVerdict → ℕ → Db → Db
settle_sat p valid_sat now db = accept_sat p now db
settle_sat p SatVerdict.invalid_formula now db = reject_formula now db
settle_sat p invalid_model now db = reopen_sat p true now db
settle_sat p SatVerdict.verification_timeout now db = reopen_sat p false now db

-- After the transaction: a refused model is deleted.
abbrev discard_model : Pending → SatVerdict → Db → Db
discard_model p invalid_model db = record db {
  models = filter (λ m. not (m.lease_id == p.message.lease_id)) db.models;
}
discard_model p _ db = db

abbrev pub result_ack : Pending → ℕ → Response
result_ack p now = ack p.message.message_id now Action.result (some p.stale)

-- `handleResult` after the wait.
unfoldable pub finish_sat : Pending → SatVerdict → ℕ → Db → Db
unfolding accept_sat reject_formula reopen_sat record_processed
finish_sat p v now db =
    discard_model p v (elim (processed_response p.session_id p.message.message_id db.processed) [
      | some r ↦ db
      | none ↦ record_processed p.session_id p.message.message_id (result_ack p now) now (
          settle_sat p v now
            (record db { verifications = close_verification p v now db.verifications }))
    ])

abbrev pub set_proof_status : ℕ → ProofStatus → List ProofArtifactRow → List ProofArtifactRow
set_proof_status id s proofs =
    update (λ p. p.artifact_id == id) (λ p. record p { verification_status = s }) proofs

-- The proof was checked: the task is certified, whatever its state is now.
unfoldable pub accept_unsat : Pending → ℕ → Db → Db
accept_unsat p now db =
    (propagate_unsat_coverage p.task.parent_task_id now (record db {
      proofs = set_proof_status p.message.lease_id ProofStatus.server_certified db.proofs;
      tasks =
          update (λ t. t.task_id == p.task.task_id)
            (λ t. record t { state = TaskState.unsat_certified; updated_at = now }) db.tasks;
    })).0

-- The verifier gave no answer: the task is offered again. Its `active_lease_id` stays.
unfoldable pub reopen_unsat : Pending → ℕ → Db → Db
reopen_unsat p now db = record db {
  tasks =
      update (λ t. t.task_id == p.task.task_id)
        (λ t. record t { state = TaskState.ready; proof_required = true; updated_at = now })
        db.tasks;
  reliability = note_session p.session_id 0 0 1 false now db.reliability;
}

pub reject_proof : Pending → ℕ → Db → Db
reject_proof p now db = release_quarantined_session_leases p.session_id now (record db {
  proofs = set_proof_status p.message.lease_id ProofStatus.invalid db.proofs;
  tasks =
      update (λ t. t.task_id == p.task.task_id)
        (λ t. record t {
          state = TaskState.ready;
          proof_required = true;
          active_lease_id = none;
          updated_at = now;
        })
        db.tasks;
  reliability = note_session p.session_id 0 1 0 true now db.reliability;
})

abbrev settle_unsat : Pending → UnsatVerdict → ℕ → Db → Db
settle_unsat p valid_unsat now db = accept_unsat p now db
settle_unsat p owner_check_required now db = record db {
  proofs = set_proof_status p.message.lease_id ProofStatus.owner_check_required db.proofs;
}
settle_unsat p UnsatVerdict.invalid_formula now db = reject_formula now db
settle_unsat p invalid_proof now db = reject_proof p now db
settle_unsat p UnsatVerdict.verification_timeout now db = reopen_unsat p now db

-- After the transaction: a refused proof loses its object.
abbrev discard_proof : Pending → UnsatVerdict → Db → Db
discard_proof p invalid_proof db = record db {
  proofs =
      update (λ a. a.artifact_id == p.message.lease_id) (λ a. record a { object_key = none })
        db.proofs;
}
discard_proof p _ db = db

-- `handleUnsatProof` after the wait. The artifact's id is the lease's, as `begin_unsat_result` checks.
unfoldable pub finish_unsat : Pending → UnsatVerdict → ℕ → Db → Db
unfolding accept_unsat reopen_unsat reject_proof reject_formula record_processed
finish_unsat p v now db =
    discard_proof p v (elim (processed_response p.session_id p.message.message_id db.processed) [
      | some r ↦ db
      | none ↦
          record_processed p.session_id p.message.message_id (result_ack p now) now
            (settle_unsat p v now db)
    ])

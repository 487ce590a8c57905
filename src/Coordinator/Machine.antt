-- ===== src/Coordinator/Machine.antt =====
-- A job of worker/job-coordinator.ts as a machine: its handlers in any order, and any number of them
-- waiting for the hash of a path, a verifier, the directory or the store of an upload, while others
-- run. What a verifier, the splitter's random
-- ids and the owner bring in is a premise of the step.
pub mod Answers
pub mod Tokens
use hive_sat.Prelude.{
  ℕ, ◌≡◌, ◌≢◌, Bool, true, false, not, List, [], ◌∷◌, Option, none, some, All, ℤ, is_zero, ◌++◌,
}
use hive_sat.Cnf.{UnsatUnder}
use hive_sat.Coordinator.State.{
  JobRow, TaskRow, ProofArtifactRow, Db, SplitMessage, YieldMessage, SessionHeartbeatMessage,
  ResultMessage, Session,
}
use hive_sat.Coordinator.Tables.{proof_by_id, CubeTask}
use hive_sat.Coordinator.Answers.{Satisfiable}
use hive_sat.Coordinator.Leases.{
  lease_work_for_slot, rollback_undelivered_lease, close_session, alarm_expiry, handle_yield,
  handle_session_heartbeat,
}
use hive_sat.Coordinator.Hello.{
  HelloMessage, is_quarantined, open_session, handle_hello, dispatch_pending_work,
}
use hive_sat.Coordinator.Split.{handle_split, issue_split_permits}
use hive_sat.Coordinator.Split.Answers.{Fresh}
use hive_sat.Coordinator.Results.{
  Pending, Begun, Reading, answered, hash_path, verify_sat, verify_unsat, receive_result,
  resume_result, SatVerdict, valid_sat, UnsatVerdict, valid_unsat, finish_sat, finish_unsat,
}
use hive_sat.Coordinator.Uploads.{
  InitializeJobInput, initialize, ok, PutOutcome, store_formula_check, store_formula_commit,
  store_model_check, store_model_commit, store_proof_check, store_proof_commit, record_proof_upload,
  confirm_owner_proof, cancel, rotate_owner_token,
}

-- A handler that waits, with what it keeps: for the hash of a path, for a verifier, for the directory
-- to activate an assignment, or for the store of an upload.
pub data Wait : Type 0 where
  hashing : Reading → Wait
  checking_model checking_proof : Pending → Wait
  activating : HelloMessage → Wait
  storing_formula : (digest length key : ℕ) → Wait
  storing_model : (lease_id length key : ℕ) → Wait
  storing_proof : (lease_id length sha decompressed key : ℕ) → CubeTask → Wait

-- The database and the handlers that wait.
pub record Machine : Type 0 where
  pub db : Db
  pub waits : List Wait

abbrev pub empty_db : Db
empty_db = record {
  job = none;
  tasks = [];
  leases = [];
  permits = [];
  results = [];
  verifications = [];
  processed = [];
  profiles = [];
  reliability = [];
  proofs = [];
  models = [];
}

abbrev pub started : InitializeJobInput → Machine
started i = record { db = (initialize i empty_db).0; waits = [] }

-- A result that is not answered at once waits.
abbrev pub take_up : Begun → List Wait → List Wait
take_up (answered r) ws = ws
take_up (hash_path r) ws = hashing r ∷ ws
take_up (verify_sat p) ws = checking_model p ∷ ws
take_up (verify_unsat p) ws = checking_proof p ∷ ws

-- One of the waiting handlers is picked, and the others go on waiting.
pub data Picks : Wait → List Wait → List Wait → Type 0 where
  first : {w : Wait} {ws : List Wait} → Picks w (w ∷ ws) ws
  later : {w v : Wait} {ws rest : List Wait} → Picks w ws rest → Picks w (v ∷ ws) (v ∷ rest)

-- The rows of tasks that a waiting handler keeps.
abbrev pub rows_of : Wait → List TaskRow
rows_of (hashing r) = r.task ∷ []
rows_of (checking_model p) = p.task ∷ []
rows_of (checking_proof p) = p.task ∷ []
rows_of _ = []

abbrev pub held : List Wait → List TaskRow
held [] = []
held (w ∷ ws) = rows_of w ++ held ws

-- The proof that the owner checked refutes the cube of its task.
abbrev pub OwnerRight : List (List ℤ) → ℕ → Db → Type 0
OwnerRight formula artifact_id db =
    (a : ProofArtifactRow)
    → proof_by_id artifact_id db.proofs ≡ some a
    → All (λ t. t.task_id ≡ a.task_id → UnsatUnder formula t.assumptions) db.tasks

pub data Step (formula : List (List ℤ)) (path_hash : List ℤ → ℕ) : Machine → Machine → Type 0 where
  lease :
      {db : Db} {ws : List Wait} (session slot lease_id now : ℕ)
      → Step formula path_hash
          (record { db = db; waits = ws })
          (record { db = (lease_work_for_slot session slot lease_id now db).0; waits = ws })
  rollback :
      {db : Db} {ws : List Wait} (lease_id now : ℕ)
      → Step formula path_hash
          (record { db = db; waits = ws })
          (record { db = rollback_undelivered_lease lease_id now db; waits = ws })
  close :
      {db : Db} {ws : List Wait} (session now : ℕ)
      → Step formula path_hash
          (record { db = db; waits = ws })
          (record { db = close_session session now db; waits = ws })
  alarm :
      {db : Db} {ws : List Wait} (now : ℕ)
      → Step formula path_hash
          (record { db = db; waits = ws })
          (record { db = alarm_expiry now db; waits = ws })
  yield :
      {db : Db} {ws : List Wait} (session : ℕ) (m : YieldMessage) (now : ℕ)
      → Step formula path_hash
          (record { db = db; waits = ws })
          (record { db = (handle_yield session m now db).0; waits = ws })
  heartbeat :
      {db : Db} {ws : List Wait} (session : ℕ) (m : SessionHeartbeatMessage) (now : ℕ)
      → Step formula path_hash
          (record { db = db; waits = ws })
          (record { db = (handle_session_heartbeat session m now db).0; waits = ws })
  split :
      {db : Db} {ws : List Wait} (session : ℕ) (m : SplitMessage) (positive_id negative_id now : ℕ)
      (sessions : List Session)
      → is_zero m.split_literal ≡ false
      → Fresh positive_id (held ws) db.tasks
      → Fresh negative_id (held ws) db.tasks
      → positive_id ≢ negative_id
      → Step formula path_hash
          (record { db = db; waits = ws })
          (record {
            db = (handle_split session m positive_id negative_id now sessions db).0;
            waits = ws;
          })
  greet :
      {db : Db} {ws : List Wait} (m : HelloMessage) (ids : List ℕ) (now : ℕ)
      → m.assignment_id ≡ none
      → Step formula path_hash
          (record { db = db; waits = ws })
          (record { db = (handle_hello true m ids now db).0; waits = ws })
  ask_directory :
      {db : Db} {ws : List Wait} (m : HelloMessage)
      → m.assignment_id ≢ none
      → is_quarantined m.session_id db.reliability ≡ false
      → Step formula path_hash
          (record { db = db; waits = ws })
          (record { db = db; waits = activating m ∷ ws })
  refuse_hello :
      {db : Db} {ws rest : List Wait} (m : HelloMessage)
      → Picks (activating m) ws rest
      → Step formula path_hash (record { db = db; waits = ws }) (record { db = db; waits = rest })
  greet_activated :
      {db : Db} {ws rest : List Wait} (m : HelloMessage) (ids : List ℕ) (now : ℕ)
      → Picks (activating m) ws rest
      → Step formula path_hash
          (record { db = db; waits = ws })
          (record { db = open_session m ids now db; waits = rest })
  dispatch :
      {db : Db} {ws : List Wait} (delivered : ℕ → Bool) (work : List (Session × List ℕ))
      (permit_ids : List ℕ) (now : ℕ) (sessions : List Session)
      → Step formula path_hash
          (record { db = db; waits = ws })
          (record {
            db = dispatch_pending_work delivered work permit_ids now sessions db;
            waits = ws;
          })
  permit :
      {db : Db} {ws : List Wait} (delivered : ℕ → Bool) (ids : List ℕ) (now : ℕ)
      (sessions : List Session)
      → Step formula path_hash
          (record { db = db; waits = ws })
          (record { db = issue_split_permits delivered ids now sessions db; waits = ws })
  receive :
      {db : Db} {ws : List Wait} (session : ℕ) (m : ResultMessage) (now : ℕ)
      → Step formula path_hash
          (record { db = db; waits = ws })
          (record { db = db; waits = take_up (receive_result session m now db) ws })
  resume :
      {db : Db} {ws rest : List Wait} (r : Reading)
      → Picks (hashing r) ws rest
      → Step formula path_hash
          (record { db = db; waits = ws })
          (record {
            db = (resume_result path_hash r db).0;
            waits = take_up (resume_result path_hash r db).1 rest;
          })
  finish_model :
      {db : Db} {ws rest : List Wait} (p : Pending) (v : SatVerdict) (now : ℕ)
      → Picks (checking_model p) ws rest
      → (v ≡ valid_sat → Satisfiable formula)
      → Step formula path_hash
          (record { db = db; waits = ws })
          (record { db = finish_sat p v now db; waits = rest })
  finish_proof :
      {db : Db} {ws rest : List Wait} (p : Pending) (v : UnsatVerdict) (now : ℕ)
      → Picks (checking_proof p) ws rest
      → (v ≡ valid_unsat → UnsatUnder formula p.task.assumptions)
      → Step formula path_hash
          (record { db = db; waits = ws })
          (record { db = finish_unsat p v now db; waits = rest })
  upload_formula :
      {db : Db} {ws : List Wait} (digest length key : ℕ) (job : JobRow)
      → store_formula_check digest length db ≡ ok job
      → Step formula path_hash
          (record { db = db; waits = ws })
          (record { db = db; waits = storing_formula digest length key ∷ ws })
  store_formula :
      {db : Db} {ws rest : List Wait} (digest length key : ℕ) (o : PutOutcome)
      → Picks (storing_formula digest length key) ws rest
      → Step formula path_hash
          (record { db = db; waits = ws })
          (record { db = (store_formula_commit digest length key o db).0; waits = rest })
  upload_model :
      {db : Db} {ws : List Wait} (lease_id length key now : ℕ) (t : CubeTask)
      → store_model_check lease_id length now db ≡ ok t
      → Step formula path_hash
          (record { db = db; waits = ws })
          (record { db = db; waits = storing_model lease_id length key ∷ ws })
  store_model :
      {db : Db} {ws rest : List Wait} (lease_id length key now : ℕ) (o : PutOutcome)
      → Picks (storing_model lease_id length key) ws rest
      → Step formula path_hash
          (record { db = db; waits = ws })
          (record { db = (store_model_commit lease_id length key now o db).0; waits = rest })
  upload_proof :
      {db : Db} {ws : List Wait} (lease_id length sha decompressed key now : ℕ) (t : CubeTask)
      → store_proof_check lease_id length decompressed now db ≡ ok t
      → Step formula path_hash
          (record { db = db; waits = ws })
          (record { db = db; waits = storing_proof lease_id length sha decompressed key t ∷ ws })
  store_proof :
      {db : Db} {ws rest : List Wait} (lease_id length sha decompressed key now : ℕ) (t : CubeTask)
      (o : PutOutcome)
      → Picks (storing_proof lease_id length sha decompressed key t) ws rest
      → Step formula path_hash
          (record { db = db; waits = ws })
          (record {
            db = (store_proof_commit lease_id length sha decompressed key now t o db).0;
            waits = rest;
          })
  record_proof :
      {db : Db} {ws : List Wait} (lease_id sha compressed decompressed now : ℕ)
      → Step formula path_hash
          (record { db = db; waits = ws })
          (record {
            db = (record_proof_upload lease_id sha compressed decompressed now db).0;
            waits = ws;
          })
  confirm :
      {db : Db} {ws : List Wait} (owner artifact_id sha now : ℕ)
      → OwnerRight formula artifact_id db
      → Step formula path_hash
          (record { db = db; waits = ws })
          (record { db = (confirm_owner_proof owner artifact_id sha now db).0; waits = ws })
  cancel_job :
      {db : Db} {ws : List Wait} (owner now : ℕ)
      → Step formula path_hash
          (record { db = db; waits = ws })
          (record { db = (cancel owner now db).0; waits = ws })
  rotate :
      {db : Db} {ws : List Wait} (owner next now : ℕ)
      → Step formula path_hash
          (record { db = db; waits = ws })
          (record { db = (rotate_owner_token owner next now db).0; waits = ws })

-- What the handlers can make of a new job.
pub data Reachable (formula : List (List ℤ)) (path_hash : List ℤ → ℕ) (i : InitializeJobInput)
    : Machine → Type 0 where
  start : Reachable formula path_hash i (started i)
  step :
      {a b : Machine}
      → Reachable formula path_hash i a
      → Step formula path_hash a b
      → Reachable formula path_hash i b

-- The handlers go on, or not.
pub data Steps (formula : List (List ℤ)) (path_hash : List ℤ → ℕ) (a : Machine)
    : Machine → Type 0 where
  stay : Steps formula path_hash a a
  on :
      {b c : Machine}
      → Steps formula path_hash a b
      → Step formula path_hash b c
      → Steps formula path_hash a c

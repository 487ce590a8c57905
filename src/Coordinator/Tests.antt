-- ===== src/Coordinator/Tests.antt =====
-- Runs of the coordinator, most of them on the job of the formula [[1]]: it is created, uploaded, leased
-- and answered with a model, split, or cancelled.
use hive_sat.Coordinator.Machine.Tokens.{store_formula_commit-once}
use hive_sat.Coordinator.Retries.{handle_yield-twice, handle_split-twice}
use hive_sat.Coordinator.Leases.Deadlines.{
  Timely, lease_work_for_slot-Timely, handle_session_heartbeat-Timely,
}
use hive_sat.Coordinator.Coverage.Rounds.{propagate-Ends}
use hive_sat.Coordinator.Coverage.{close_unsat_job, propagate, propagate_unsat_coverage}
use hive_sat.Coordinator.Uploads.Budget.{store_proof_commit-budget}
use hive_sat.Coordinator.Split.Bounds.{length-handle_split}
use hive_sat.Coordinator.Split.Halves.{IsHalved, handle_split-IsHalved}
use hive_sat.Coordinator.Split.{connected_slots, handle_split, child_task}
use hive_sat.Prelude.{
  ◌≢◌, Option, map, [], ◌≤◌, arith, length, neg, All, false, false, ℕ, ◌≡◌, refl, true, List, [],
  ◌∷◌, none, some, ℤ, pos,
}
use hive_sat.Cnf.{Unsat}
use hive_sat.Coordinator.State.{
  YieldMessage, paused, TaskRow, LeaseRow, LeaseStatus, PermitStatus, TaskState, Db, SplitMessage,
  Session, SessionHeartbeatMessage, max_tasks, TaskState, JobState, JobRow, ResultMessage,
  sat_model, sat,
}
use hive_sat.Coordinator.Tables.{
  to_cube_task, task, processed_response, record_processed, prune_processed,
}
use hive_sat.Coordinator.Answers.{Satisfiable}
use hive_sat.Coordinator.Leases.{
  handle_yield, active_lease, handle_session_heartbeat, lease_work_for_slot, grant, next_task,
}
use hive_sat.Coordinator.Results.{
  finish_unsat, valid_unsat, UnsatVerdict, accept_unsat, reopen_unsat, equal_cube, Pending, Reading,
  receive_result, resume_result, begin_sat, valid_sat, finish_sat, accept_sat,
}
use hive_sat.Coordinator.Uploads.{
  new_job, authorize_upload, store_formula_check, Code, err, ok, cancel, cancel_all,
  store_proof_commit, proof_bytes, max_unsat_proof_compressed_bytes, InitializeJobInput, initialize,
  store_formula_commit, stored,
}
use hive_sat.Coordinator.Machine.{
  empty_db, Machine, started, storing_formula, later, stay, on, checking_model, first, lease,
  receive, resume, finish_model, upload_formula, store_formula, Reachable, start, step,
}
use hive_sat.Coordinator.Machine.Answers.{answer-IsRight}

abbrev unit_formula : List (List ℤ)
unit_formula = (pos 1 ∷ []) ∷ []

abbrev no_hash : List ℤ → ℕ
no_hash cube = 0

abbrev new_input : InitializeJobInput
new_input = record {
  job_id = 7;
  owner_digest = 11;
  upload_digest = 12;
  formula = record {
    hash = 13;
    variable_count = 1;
    clause_count = 1;
    literal_count = 1;
    encoded_bytes = 28;
    compressed_bytes = 20;
  };
  created_at = 1000;
  expires_at = 9000000;
}

abbrev uploaded : Machine
unfolding store_formula_commit
uploaded = record {
  db = (store_formula_commit 12 20 14 stored (started new_input).db).0;
  waits = [];
}

abbrev leased : Machine
leased = record { db = (lease_work_for_slot 21 1 31 2000 uploaded.db).0; waits = [] }

abbrev model_message : ResultMessage
model_message = record {
  message_id = 41;
  slot_id = 1;
  task_id = 0;
  lease_id = 31;
  result = sat;
  evidence_sha256 = 42;
  manifest = record {
    formula_hash = 13;
    task_id = 0;
    cube = [];
    path_hash = 0;
    solver_version = 1;
    kind = sat_model 31 42 12 1;
  };
}

abbrev claim : Pending
claim = record {
  session_id = 21;
  message = model_message;
  task = record {
    task_id = 0;
    parent_task_id = none;
    depth = 0;
    assumptions = [];
    state = TaskState.leased;
    created_at = 1000;
    updated_at = 2000;
    lease_count = 1;
    active_lease_id = some 31;
    proof_required = false;
  };
  stale = false;
}

abbrev uploading_job : JobRow
uploading_job = new_job new_input

-- The row of the job as `handleResult` reads it.
abbrev read_job : JobRow
read_job = record {
  job_id = 7;
  state = JobState.running;
  owner_digest = 11;
  upload_digest = none;
  formula_hash = 13;
  variable_count = 1;
  clause_count = 1;
  literal_count = 1;
  encoded_bytes = 28;
  compressed_bytes = 20;
  uploaded_bytes = some 20;
  object_key = some 14;
  created_at = 1000;
  expires_at = 9000000;
}

abbrev claim_reading : Reading
claim_reading = record {
  session_id = 21;
  message = model_message;
  lease = record {
    lease_id = 31;
    task_id = 0;
    session_id = 21;
    slot_id = 1;
    lease_count = 1;
    issued_at = 2000;
    expires_at = 302000;
    maximum_expires_at = 3602000;
    last_active_ms = 0;
    status = LeaseStatus.active;
  };
  task = claim.task;
  job = read_job;
  now = 3000;
}

abbrev claimed : Machine
claimed = record {
  db = (resume_result no_hash claim_reading leased.db).0;
  waits = checking_model claim ∷ [];
}

abbrev answered_job : Machine
answered_job = record { db = finish_sat claim valid_sat 4000 claimed.db; waits = [] }

abbrev verified_job : JobRow
verified_job = record {
  job_id = 7;
  state = JobState.sat_verified;
  owner_digest = 11;
  upload_digest = none;
  formula_hash = 13;
  variable_count = 1;
  clause_count = 1;
  literal_count = 1;
  encoded_bytes = 28;
  compressed_bytes = 20;
  uploaded_bytes = some 20;
  object_key = some 14;
  created_at = 1000;
  expires_at = 9000000;
}

claimed_reached : Reachable unit_formula no_hash new_input claimed
unfolding initialize store_formula_check authorize_upload store_formula_commit lease_work_for_slot
    grant next_task task processed_response receive_result resume_result begin_sat equal_cube
claimed_reached =
    step
      (step
        (step
          (step (step start (upload_formula 12 20 14 uploading_job refl))
            (store_formula 12 20 14 stored first))
          (lease 21 1 31 2000))
        (receive 21 model_message 3000))
      (resume claim_reading first)

answered_reached : Reachable unit_formula no_hash new_input answered_job
answered_reached =
    step claimed_reached (finish_model claim valid_sat 4000 first (λ e. ((λ n. true), refl)))

answer-IsRight_example :
    (verified_job.state ≡ JobState.sat_verified → Satisfiable unit_formula)
    × (verified_job.state ≡ JobState.unsat_certified → Unsat unit_formula)
    × (verified_job.state ≡ JobState.unsat_owner_verified → Unsat unit_formula)
unfolding initialize store_formula_commit lease_work_for_slot grant next_task task
    processed_response receive_result resume_result begin_sat equal_cube finish_sat accept_sat
    record_processed prune_processed
answer-IsRight_example =
    answer-IsRight unit_formula no_hash new_input answered_job verified_job answered_reached refl

abbrev running_job : JobRow
running_job = record verified_job { state = JobState.running }

abbrev leased_root : TaskRow
leased_root = claim.task

abbrev root_lease : LeaseRow
root_lease = record {
  lease_id = 31;
  task_id = 0;
  session_id = 21;
  slot_id = 1;
  lease_count = 1;
  issued_at = 2000;
  expires_at = 302000;
  maximum_expires_at = 3602000;
  last_active_ms = 0;
  status = LeaseStatus.active;
}

-- The root is leased, and may be split.
abbrev splittable : Db
splittable = record empty_db {
  job = some running_job;
  tasks = leased_root ∷ [];
  leases = root_lease ∷ [];
  permits =
      record {
        permit_id = 61;
        task_id = 0;
        lease_id = 31;
        session_id = 21;
        slot_id = 1;
        expires_at = 122000;
        status = PermitStatus.active;
      }
      ∷ [];
}

abbrev split_message : SplitMessage
split_message = record {
  message_id = 43;
  slot_id = 1;
  task_id = 0;
  lease_id = 31;
  permit_id = 61;
  split_literal = pos 1;
}

abbrev two_slots : List Session
two_slots = record { session_id = 21; connected_at = 1500; slot_ids = 1 ∷ 2 ∷ [] } ∷ []

length-handle_split_example :
    length (handle_split 21 split_message 51 52 4000 two_slots splittable).0.tasks ≤ max_tasks
length-handle_split_example =
    length-handle_split 21 split_message 51 52 4000 two_slots splittable (omega arith)

handle_split-IsHalved_example :
    IsHalved 0 51 52 splittable.tasks
      (handle_split 21 split_message 51 52 4000 two_slots splittable).0.tasks
unfolding handle_split active_lease connected_slots task processed_response
handle_split-IsHalved_example =
    handle_split-IsHalved 21 split_message 51 52 4000 two_slots splittable refl
      (λ e. absurd (omega (arith, e))) refl refl

-- The root awaits a proof.
abbrev proof_db : Db
proof_db = record splittable {
  tasks = record leased_root { proof_required = true } ∷ [];
  permits = [];
}

store_proof_commit-budget_example :
    proof_bytes
      (store_proof_commit 31 100 71 400 72 5000 (to_cube_task leased_root) stored proof_db).0.proofs
    ≤ max_unsat_proof_compressed_bytes
unfolding proof_bytes
store_proof_commit-budget_example =
    store_proof_commit-budget 31 100 71 400 72 5000 (to_cube_task leased_root) stored proof_db
      (omega arith)

-- The root is split, and its halves are certified.
abbrev covered_db : Db
covered_db = record splittable {
  tasks =
      record leased_root { state = TaskState.split; active_lease_id = none }
      ∷ record (child_task leased_root 51 (pos 1) 4000) { state = TaskState.unsat_certified }
      ∷ record (child_task leased_root 52 (neg (pos 1)) 4000) { state = TaskState.unsat_certified }
      ∷ [];
}

propagate-Ends_example :
    propagate 9 (some 0) 6000 covered_db ≡ some (propagate_unsat_coverage (some 0) 6000 covered_db)
propagate-Ends_example = propagate-Ends 9 (some 0) 6000 covered_db (omega arith)

abbrev ready_db : Db
ready_db = record splittable {
  tasks = record leased_root { state = TaskState.ready; active_lease_id = none } ∷ [];
  leases = [];
}

lease_work_for_slot-Timely_example : All Timely (lease_work_for_slot 21 1 32 7000 ready_db).0.leases
lease_work_for_slot-Timely_example = lease_work_for_slot-Timely ready_db tt 21 1 32 7000

abbrev late_heartbeat : SessionHeartbeatMessage
late_heartbeat = record {
  message_id = 44;
  slots = record { slot_id = 1; lease_id = some 31; active_ms = 200000 } ∷ [];
}

handle_session_heartbeat-Timely_example :
    All Timely (handle_session_heartbeat 21 late_heartbeat 250000 splittable).0.leases
handle_session_heartbeat-Timely_example =
    handle_session_heartbeat-Timely 21 late_heartbeat 250000 splittable
      (record { before_maximum = omega arith; within_tenure = omega arith }, tt)

abbrev yield_message : YieldMessage
yield_message = record { message_id = 45; slot_id = 1; task_id = 0; lease_id = 31; reason = paused }

handle_yield-twice_example :
    handle_yield 21 yield_message 9000 (handle_yield 21 yield_message 4000 splittable).0
    ≡ handle_yield 21 yield_message 4000 splittable
unfolding handle_yield active_lease task processed_response
handle_yield-twice_example = handle_yield-twice 21 4000 9000 yield_message splittable tt refl

handle_split-twice_example :
    handle_split 21 split_message 53 54 9000 []
      (handle_split 21 split_message 51 52 4000 two_slots splittable).0
    ≡ handle_split 21 split_message 51 52 4000 two_slots splittable
unfolding handle_split active_lease connected_slots task processed_response
handle_split-twice_example =
    handle_split-twice 21 split_message 51 52 53 54 4000 9000 two_slots [] splittable tt refl

-- A verdict that arrives after the owner has cancelled the job: the job is certified all the same.
certified_after_cancel :
    (finish_unsat claim valid_unsat 9000 (cancel 11 8000 splittable).0).job
    ≡ some (record running_job { state = JobState.unsat_certified; uploaded_bytes = none })
unfolding cancel cancel_all finish_unsat accept_unsat propagate_unsat_coverage propagate
    close_unsat_job task processed_response record_processed prune_processed
certified_after_cancel = refl

-- A verifier that gives no answer on an earlier proof: the task is ready, and its lease is active.
ready_while_leased :
    map {B = TaskState × Option ℕ}
      (λ t. (t.state, t.active_lease_id))
      (finish_unsat claim UnsatVerdict.verification_timeout 9000 proof_db).tasks
    ≡ (TaskState.ready, some 31) ∷ []
unfolding finish_unsat reopen_unsat processed_response record_processed prune_processed
ready_while_leased = refl

-- Two uploads with the same token are in flight, and the store answers the second one first.
abbrev racing : Machine
racing = record {
  db = (started new_input).db;
  waits = storing_formula 12 20 15 ∷ storing_formula 12 20 14 ∷ [];
}

racing_reached : Reachable unit_formula no_hash new_input racing
unfolding initialize store_formula_check authorize_upload
racing_reached =
    step (step start (upload_formula 12 20 14 uploading_job refl))
      (upload_formula 12 20 15 uploading_job refl)

abbrev won : Machine
unfolding store_formula_commit lease_work_for_slot
won = record {
  db = (lease_work_for_slot 21 1 31 2000 (store_formula_commit 12 20 14 stored racing.db).0).0;
  waits = storing_formula 12 20 15 ∷ [];
}

store_formula_commit-once_example :
    ((job : JobRow) → store_formula_check 12 20 won.db ≢ ok job)
    × (store_formula_commit 12 20 15 stored won.db ≡ (won.db, err Code.invalid_state))
unfolding initialize store_formula_commit won
store_formula_commit-once_example =
    store_formula_commit-once unit_formula no_hash new_input racing won
      (storing_formula 12 20 15 ∷ []) 12 20 14 20 12 20 15 racing_reached (later first) refl
      (on stay (lease 21 1 31 2000))

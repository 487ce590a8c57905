-- ===== src/Coordinator/SessionTests.antt =====
-- Runs of `handleHello` and `scheduleNextAlarm` of worker/job-coordinator.ts, and their theorems at
-- concrete inputs.
use hive_sat.Prelude.{◌+◌, ℕ, ◌≡◌, refl, false, [], ◌∷◌, none, some, map}
use hive_sat.Coordinator.State.{JobState, TaskRow, TaskState, LeaseRow, LeaseStatus, Db, Session}
use hive_sat.Coordinator.Machine.{empty_db}
use hive_sat.Coordinator.Hello.{HelloMessage, resume_leases}
use hive_sat.Coordinator.Alarm.{schedule_next_alarm}
use hive_sat.Coordinator.Alarm.Bounds.{IsInTime, schedule_next_alarm-IsInTime}
use hive_sat.Coordinator.Split.{connected_slots}
use hive_sat.Coordinator.Tables.{task}

abbrev leased_task : ℕ → ℕ → TaskRow
leased_task id lease_id = record {
  task_id = id;
  parent_task_id = none;
  depth = 1;
  assumptions = [];
  state = TaskState.leased;
  created_at = 1000;
  updated_at = 1000;
  lease_count = 1;
  active_lease_id = some lease_id;
  proof_required = false;
}

abbrev lease_of : ℕ → ℕ → ℕ → ℕ → LeaseRow
lease_of id task_id slot issued = record {
  lease_id = id;
  task_id = task_id;
  session_id = 21;
  slot_id = slot;
  lease_count = 1;
  issued_at = issued;
  expires_at = issued + 300000;
  maximum_expires_at = issued + 3600000;
  last_active_ms = 0;
  status = LeaseStatus.active;
}

-- A session with leases on the slots 5 and 1.
abbrev two_leases : Db
two_leases = record empty_db {
  job = some (record {
    job_id = 7;
    state = JobState.running;
    owner_digest = 11;
    upload_digest = none;
    formula_hash = 13;
    variable_count = 1;
    clause_count = 1;
    literal_count = 1;
    encoded_bytes = 28;
    compressed_bytes = 20;
    uploaded_bytes = some 20;
    object_key = some 14;
    created_at = 1000;
    expires_at = 9000000;
  });
  tasks = leased_task 1 31 ∷ leased_task 2 32 ∷ [];
  leases = lease_of 31 1 5 1000 ∷ lease_of 32 2 1 2000 ∷ [];
}

abbrev hello : HelloMessage
hello = record {
  message_id = 41;
  session_id = 21;
  assignment_id = some 51;
  slot_ids = 1 ∷ 2 ∷ [];
  capabilities = record {
    hardware_concurrency = 4;
    max_workers = 2;
    mobile = false;
    solver_version = "1.0";
    proof_generation = none;
    calibrated_conflicts_per_second = none;
  };
}

-- The lease of slot 5 moves to slot 1, which the second lease keeps: slot 2 stays without one.
both_on_one_slot :
    map (λ l. l.slot_id) (resume_leases 21 (1 ∷ 2 ∷ []) 3000 two_leases).leases ≡ 1 ∷ 1 ∷ []
unfolding resume_leases
both_on_one_slot = refl

abbrev session : Session
session = record { session_id = 21; connected_at = 500; slot_ids = 1 ∷ 2 ∷ 3 ∷ [] }

-- A third slot is free, so that the alarm is for a split of the first lease's task.
alarm_for_split : schedule_next_alarm 3000 (session ∷ []) two_leases ≡ some 4000
unfolding schedule_next_alarm connected_slots task
alarm_for_split = refl

schedule_next_alarm-IsInTime_example :
    IsInTime 3000 two_leases (schedule_next_alarm 3000 (session ∷ []) two_leases)
schedule_next_alarm-IsInTime_example = schedule_next_alarm-IsInTime 3000 (session ∷ []) two_leases

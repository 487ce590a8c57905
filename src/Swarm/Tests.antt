-- ===== src/Swarm/Tests.antt =====
-- Runs of the directory of worker/swarm-directory.ts, and its theorems at concrete inputs.
use hive_sat.Swarm.Replies.Accepted.{IsSendable, IsRead, assign-IsRead}
use hive_sat.Swarm.Replies.{reply}
use hive_sat.Protocol.Json.Ensures.{IsId}
use hive_sat.Protocol.Json.{is_id}
use Prim.Native.String.{String}
use hive_sat.Prelude.{
  if◌then◌else◌, ◌==◌, Bool-cases, inl, inr, ℕ, ◌≡◌, ◌<◌, refl, true, false, List, [], ◌∷◌, none,
  some, arith, All,
}
use hive_sat.Protocol.Capabilities.{WorkerCapabilities, calibrated_task_profile}
use hive_sat.Swarm.State.{
  CreationRow, AdmissionInput, AdmissionResult, Directory, SwarmAssignmentResult,
}
use hive_sat.Swarm.FairScheduler.{FairJob, select_fair_job}
use hive_sat.Swarm.FairScheduler.Choice.{IsFairChoice, select_fair_job-IsFairChoice}
use hive_sat.Swarm.Directory.{Snapshot, admit, mark_ready, consume_turnstile, snapshot, deadlines}
use hive_sat.Swarm.Directory.Admission.{IsDecided, admit-IsDecided}
use hive_sat.Swarm.Assignments.{assign, reconcile, alarm}
use hive_sat.Swarm.Assignments.Offers.{IsServed, assign-IsServed}
use hive_sat.Swarm.Assignments.Deadlines.{IsAlarm, alarm-IsAlarm}
use hive_sat.Swarm.Assignments.Retries.{reconcile-twice}
use hive_sat.Swarm.Ledger.{IsConsistent}
use hive_sat.Swarm.Ledger.Snapshot.{engaged_workers, snapshot-engaged}
use hive_sat.Swarm.Machine.{Step, Steps, empty_directory, Steps-IsConsistent}
use hive_sat.Swarm.Machine.Turnstile.{consume_turnstile-once}

abbrev first_job : AdmissionInput
first_job = record {
  job_id = 7;
  device_digest = 1;
  network_digest = 2;
  created_at = 1000;
  expires_at = 86401000;
  global_ceiling = 4;
  bypass_creation_rate_limit = false;
}

abbrev laptop : WorkerCapabilities
laptop = record {
  hardware_concurrency = 8;
  max_workers = 4;
  mobile = false;
  solver_version = "1.0";
  proof_generation = none;
  calibrated_conflicts_per_second = none;
}

abbrev waiting : Directory
waiting = (mark_ready 7 2000 (admit first_job empty_directory).0).0

abbrev busy : Directory
busy = (assign 21 31 laptop none 3000 waiting).0

busy-Steps : Steps 5000 empty_directory busy
busy-Steps =
    Steps.then
      (Steps.then (Steps.then Steps.stay (omega arith) (Step.asked first_job tt)) (omega arith)
        (Step.ready 7 2000))
      (omega arith) (Step.served 21 31 laptop none 3000)

offered :
    (assign 21 31 laptop none 3000 waiting).1
    ≡ SwarmAssignmentResult.assigned (record {
      assignment_id = 21;
      job_id = 7;
      workers = 4;
      quantum_ms = 3600000;
      reserved_worker_ms = 14400000;
      conflict_budget = 100;
      lease_target_ms = 300000;
    })
unfolding assign mark_ready admit select_fair_job calibrated_task_profile
offered = refl

counted : (snapshot busy).active_workers ≡ 4
unfolding snapshot assign mark_ready admit select_fair_job
counted = refl

Steps-IsConsistent_example : IsConsistent busy
Steps-IsConsistent_example = Steps-IsConsistent busy-Steps

snapshot-engaged_example : (snapshot busy).active_workers ≡ engaged_workers busy
snapshot-engaged_example = snapshot-engaged busy (Steps-IsConsistent busy-Steps)

abbrev two_jobs : List FairJob
two_jobs =
    record { job_id = 1; virtual_worker_ms = 5000; assigned_workers = 6; last_service_at = 100 }
    ∷ record { job_id = 2; virtual_worker_ms = 5001; assigned_workers = 0; last_service_at = 0 }
    ∷ []

select_fair_job-IsFairChoice_example : IsFairChoice two_jobs 4000 (select_fair_job two_jobs 4 4000)
select_fair_job-IsFairChoice_example = select_fair_job-IsFairChoice two_jobs 4 4000

-- The second job waited 100 ms longer, which is worth 5 ms.
waited_longer :
    select_fair_job two_jobs 4 4000
    ≡ some (record {
      job = record {
        job_id = 2;
        virtual_worker_ms = 5001;
        assigned_workers = 0;
        last_service_at = 0;
      };
      workers = 4;
    })
unfolding select_fair_job
waited_longer = refl

admit-IsDecided_example : IsDecided first_job empty_directory (admit first_job empty_directory)
admit-IsDecided_example = admit-IsDecided first_job empty_directory

assign-IsServed_example :
    IsServed 31 laptop none 3000 waiting (assign 21 31 laptop none 3000 waiting)
assign-IsServed_example = assign-IsServed 21 31 laptop none 3000 waiting

alarm-IsAlarm_example :
    All (λ t. 400000 < t) (deadlines (alarm 400000 busy))
    × IsAlarm 400000 (deadlines (alarm 400000 busy)) (alarm 400000 busy).alarm
alarm-IsAlarm_example = alarm-IsAlarm 400000 busy

-- The reservation that was not taken up is given back.
idle_again : (snapshot (alarm 400000 busy)).active_workers ≡ 0
unfolding snapshot alarm assign mark_ready admit select_fair_job
idle_again = refl

consume_turnstile-once_example :
    (consume_turnstile 9 900 50 (consume_turnstile 9 100 10 empty_directory).0).1 ≡ false
unfolding consume_turnstile
consume_turnstile-once_example =
    consume_turnstile-once 9 100 10 900 50 empty_directory
      (consume_turnstile 9 100 10 empty_directory).0 refl Steps.stay (omega arith)

reconcile-twice_example :
    reconcile 31 21 60000 (reconcile 31 21 60000 busy).0 ≡ ((reconcile 31 21 60000 busy).0, true)
unfolding reconcile assign mark_ready admit select_fair_job
reconcile-twice_example = reconcile-twice 31 21 60000 busy refl

abbrev created : ℕ → ℕ → ℕ → ℕ → CreationRow
created job device network time = record {
  job_id = job;
  device_digest = device;
  network_digest = network;
  created_at = time;
}

-- Three jobs of other devices from network 2, and one of device 1 from another network.
abbrev crowded : Directory
crowded = record empty_directory {
  events = created 1 5 2 100 ∷ created 2 6 2 200 ∷ created 3 7 2 300 ∷ created 4 1 9 400 ∷ [];
}

abbrev at_time : ℕ → AdmissionInput
at_time t = record first_job { created_at = t }

-- The rate limit names a time at which it still refuses.
too_early :
    ((admit (at_time 1000) crowded).1 ≡ AdmissionResult.creation_rate_limit 86400100)
    × ((admit (at_time 86400100) crowded).1 ≡ AdmissionResult.creation_rate_limit 86400200)
unfolding admit
too_early = (refl, refl)

abbrev named : ℕ → String
named n = if n == 7 then "job_7" else "assignment_21"

named-IsId : (n : ℕ) → IsId (named n)
unfolding is_id
named-IsId n = elim (Bool-cases (n == 7)) [ inl e ↦ rw e | inr e ↦ rw e ]

abbrev quiet : Snapshot
quiet = record { active_jobs = 1; active_workers = 4 }

sendable : IsSendable "m-1" "m-2" 3000 quiet
unfolding is_id
sendable = record {
  message_id = refl;
  request_message_id = refl;
  server_time = omega arith;
  active_jobs = omega arith;
  active_workers = omega arith;
}

assign-IsRead_example :
    IsRead named "m-1" "m-2" 3000 quiet
      (assign 21 31 laptop none 3000 waiting).1
      (reply named "m-1" "m-2" 3000 quiet (assign 21 31 laptop none 3000 waiting).1)
assign-IsRead_example =
    assign-IsRead named named-IsId "m-1" "m-2" 3000 quiet sendable 21 31 laptop none 3000 waiting

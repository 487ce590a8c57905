-- ===== src/Swarm/Ledger.antt =====
-- The accounts of worker/swarm-directory.ts: the counters in the rows of the jobs against the
-- assignments that they stand for.
pub mod Snapshot
use hive_sat.Prelude.{
  Bool, filter, All-filter, refl, ℕ, ◌+◌, ◌-◌, ◌≡◌, ◌≤◌, true, false, ◌&&◌, List, some, All, find?,
  ◌==◌, if◌then◌else◌, arith,
}
use hive_sat.Prelude.Rows.{All-update_with, update, sum_of, IsUnique}
use hive_sat.Prelude.Keys.{IsUnique-filter, IsUnique-update, sum_of-update}
use hive_sat.Swarm.State.{
  CreationRow, ReplayRow, ActiveJobRow, AssignmentRow, Directory, swarm_max_job_workers,
}
use hive_sat.Swarm.Directory.{schedule_next_alarm, is_live}

-- What an assignment adds to an account of a job while it is live.
abbrev pub due : (AssignmentRow → ℕ) → ℕ → AssignmentRow → ℕ
due f job a = if a.job_id == job && is_live a.status then f a else 0

-- The sum over the live assignments of a job.
abbrev pub live_sum : (AssignmentRow → ℕ) → ℕ → List AssignmentRow → ℕ
live_sum f job rows = sum_of (due f job) rows

-- The counters of a job are the sums over its live assignments; what is reserved is charged; the job
-- has no more workers than the maximum.
pub record IsBalanced (rows : List AssignmentRow) (j : ActiveJobRow) : Type 0 where
  pub workers : j.assigned_workers ≡ live_sum (λ a. a.workers) j.job_id rows
  pub reserved : j.reserved_worker_ms ≡ live_sum (λ a. a.reserved_worker_ms) j.job_id rows
  pub charged : j.reserved_worker_ms ≤ j.virtual_worker_ms
  pub capped : j.assigned_workers ≤ swarm_max_job_workers

-- The keys are unique, and every job is balanced.
pub record IsConsistent (d : Directory) : Type 0 where
  pub assignment_ids : IsUnique (λ a. a.assignment_id) d.assignments
  pub job_ids : IsUnique (λ j. j.job_id) d.jobs
  pub devices : IsUnique (λ j. j.device_digest) d.jobs
  pub networks : IsUnique (λ j. j.network_digest) d.jobs
  pub balanced : All (IsBalanced d.assignments) d.jobs

-- A row of the table that is live.
abbrev pub IsLiveIn : List AssignmentRow → AssignmentRow → Type 0
IsLiveIn rows a =
    (find? (λ b. b.assignment_id == a.assignment_id) rows ≡ some a) × (is_live a.status ≡ true)

-- When a live assignment ends, the sums of its job fall by what it took.
pub live_sum-end :
    (f : AssignmentRow → ℕ) (job : ℕ) (end : AssignmentRow → AssignmentRow)
    → ((b : AssignmentRow) → is_live (end b).status ≡ false)
    → (rows : List AssignmentRow) (a : AssignmentRow) → IsUnique (λ b. b.assignment_id) rows
    → IsLiveIn rows a
    → live_sum f job (update (λ b. b.assignment_id == a.assignment_id) end rows)
        + (if a.job_id == job then f a else 0)
      ≡ live_sum f job rows
live_sum-end f job end ends rows a u (found, live) =
    let h = sum_of-update (λ b. b.assignment_id) (due f job) a.assignment_id end rows a u found in
    ground (arith, h, ends a)

module _ (a : AssignmentRow) (rows after : List AssignmentRow)
    (sums : (f : AssignmentRow → ℕ) (job : ℕ)
      → live_sum f job after + (if a.job_id == job then f a else 0) ≡ live_sum f job rows) where
  -- The job of an assignment that ended is balanced again once it is given back.
  pub given_back-IsBalanced :
      (j : ActiveJobRow) (charged : ℕ)
      → IsBalanced rows j
      → (j.job_id == a.job_id) ≡ true
      → j.reserved_worker_ms - a.reserved_worker_ms ≤ charged
      → IsBalanced after (record j {
        virtual_worker_ms = charged;
        reserved_worker_ms = j.reserved_worker_ms - a.reserved_worker_ms;
        assigned_workers = j.assigned_workers - a.workers;
      })
  given_back-IsBalanced j charged b e h =
      ground (arith, sums (λ b. b.workers) j.job_id, sums (λ b. b.reserved_worker_ms) j.job_id)

  -- The other jobs are balanced as they were.
  pub others-IsBalanced :
      (j : ActiveJobRow) → IsBalanced rows j → (j.job_id == a.job_id) ≡ false → IsBalanced after j
  others-IsBalanced j b e =
      ground (arith, sums (λ b. b.workers) j.job_id, sums (λ b. b.reserved_worker_ms) j.job_id)

abbrev pub give_back : AssignmentRow → (ActiveJobRow → ℕ) → ActiveJobRow → ActiveJobRow
give_back a charge j = record j {
  virtual_worker_ms = charge j;
  reserved_worker_ms = j.reserved_worker_ms - a.reserved_worker_ms;
  assigned_workers = j.assigned_workers - a.workers;
}

-- A live assignment ends and gives back what it took, whatever of its reservation is charged.
pub ended-IsConsistent :
    (a : AssignmentRow) (end : AssignmentRow → AssignmentRow) (charge : ActiveJobRow → ℕ)
    → ((b : AssignmentRow) → (end b).assignment_id ≡ b.assignment_id)
    → ((b : AssignmentRow) → is_live (end b).status ≡ false)
    → ((j : ActiveJobRow)
        → j.reserved_worker_ms ≤ j.virtual_worker_ms
        → j.reserved_worker_ms - a.reserved_worker_ms ≤ charge j)
    → (d : Directory) → IsConsistent d
    → IsLiveIn d.assignments a
    → IsConsistent (record d {
      jobs = update (λ j. j.job_id == a.job_id) (give_back a charge) d.jobs;
      assignments = update (λ b. b.assignment_id == a.assignment_id) end d.assignments;
    })
ended-IsConsistent a end charge same ends enough d c h =
    let sums = λ (f : AssignmentRow → ℕ) (job : ℕ).
      live_sum-end f job end ends d.assignments a c.assignment_ids h in
    record {
      assignment_ids =
          IsUnique-update (λ b. b.assignment_id) (λ b. b.assignment_id == a.assignment_id) end same
            d.assignments c.assignment_ids;
      job_ids =
          IsUnique-update (λ j. j.job_id) (λ j. j.job_id == a.job_id) (give_back a charge)
            (λ j. refl) d.jobs c.job_ids;
      devices =
          IsUnique-update (λ j. j.device_digest) (λ j. j.job_id == a.job_id) (give_back a charge)
            (λ j. refl) d.jobs c.devices;
      networks =
          IsUnique-update (λ j. j.network_digest) (λ j. j.job_id == a.job_id) (give_back a charge)
            (λ j. refl) d.jobs c.networks;
      balanced =
          All-update_with (IsBalanced d.assignments) _ (λ j. j.job_id == a.job_id)
            (give_back a charge)
            (λ j b e.
              given_back-IsBalanced a d.assignments _ sums j (charge j) b e (enough j b.charged))
            (λ j b e. others-IsBalanced a d.assignments _ sums j b e) d.jobs c.balanced;
    }

pub schedule_next_alarm-IsConsistent :
    (d : Directory) → IsConsistent d → IsConsistent (schedule_next_alarm d)
unfolding schedule_next_alarm
schedule_next_alarm-IsConsistent d c = record {
  assignment_ids = c.assignment_ids;
  job_ids = c.job_ids;
  devices = c.devices;
  networks = c.networks;
  balanced = c.balanced;
}

-- A DELETE of jobs keeps the accounts of the others.
pub kept_jobs-IsConsistent :
    (p : ActiveJobRow → Bool) (events : List CreationRow) (replays : List ReplayRow) (d : Directory)
    → IsConsistent d
    → IsConsistent (record d { jobs = filter p d.jobs; events = events; replays = replays })
kept_jobs-IsConsistent p events replays d c = record {
  assignment_ids = c.assignment_ids;
  job_ids = IsUnique-filter (λ j. j.job_id) p d.jobs c.job_ids;
  devices = IsUnique-filter (λ j. j.device_digest) p d.jobs c.devices;
  networks = IsUnique-filter (λ j. j.network_digest) p d.jobs c.networks;
  balanced = All-filter (IsBalanced d.assignments) p d.jobs c.balanced;
}

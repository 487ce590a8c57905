-- ===== src/Swarm/Assignments.antt =====
-- The assignments of worker/swarm-directory.ts: `assign`, `activate`, `reconcile`,
-- `expireAssignments` and the alarm. A maximum of 0 and a difference is the difference of ℕ.
pub mod Balance
pub mod Replays
pub mod Deadlines
pub mod Offers
pub mod Retries
use hive_sat.Prelude.{
  ℕ, ◌+◌, ◌-◌, ◌*◌, Bool, true, false, not, ◌&&◌, ◌||◌, List, [], ◌∷◌, Option, none, some, filter,
  find?, ltb, leb, ◌==◌, if◌then◌else◌,
}
use hive_sat.Prelude.Rows.{update, count}
use hive_sat.Protocol.Capabilities.{WorkerCapabilities, calibrated_task_profile}
use hive_sat.Swarm.State.{
  creation_window_ms, swarm_assignment_quantum_ms, swarm_assignment_activation_ms, ActiveJobRow,
  AssignmentStatus, AssignmentRow, Directory, PreviousSwarmAssignment, Assigned,
  SwarmAssignmentResult,
}
use hive_sat.Swarm.FairScheduler.{Selected, select_fair_job, reconciled_virtual_runtime}
use hive_sat.Swarm.Directory.{is_pending, is_active, is_live, schedule_next_alarm, active_fair_jobs}

-- An assignment gives back what it took; a job is charged nothing for one that never began.
abbrev pub release : AssignmentRow → ActiveJobRow → ActiveJobRow
release a j = record j {
  virtual_worker_ms =
      if is_pending a.status
      then j.virtual_worker_ms - a.reserved_worker_ms
      else j.virtual_worker_ms;
  reserved_worker_ms = j.reserved_worker_ms - a.reserved_worker_ms;
  assigned_workers = j.assigned_workers - a.workers;
}

-- A round of the loop in `expireAssignments`.
pub expire_one : AssignmentRow → Directory → Directory
expire_one a d = record d {
  jobs = update (λ j. j.job_id == a.job_id) (release a) d.jobs;
  assignments =
      update (λ b. b.assignment_id == a.assignment_id)
        (λ b. record b { status = AssignmentStatus.expired }) d.assignments;
}

pub expire_each : List AssignmentRow → Directory → Directory
unfolding expire_one
expire_each [] d = d
expire_each (a ∷ rest) d = expire_each rest (expire_one a d)

abbrev pub is_overdue : ℕ → AssignmentRow → Bool
is_overdue now a = is_live a.status && leb a.expires_at now

-- `expireAssignments`.
pub expire_assignments : ℕ → Directory → Directory
unfolding expire_each
expire_assignments now d = expire_each (filter (is_overdue now) d.assignments) d

-- The job's row of `reconcile` is charged the time that was used.
abbrev pub settle : AssignmentRow → ℕ → ActiveJobRow → ActiveJobRow
unfolding reconciled_virtual_runtime
settle a actual j = record j {
  virtual_worker_ms = reconciled_virtual_runtime j.virtual_worker_ms a.reserved_worker_ms actual;
  reserved_worker_ms = j.reserved_worker_ms - a.reserved_worker_ms;
  assigned_workers = j.assigned_workers - a.workers;
}

pub complete : AssignmentRow → ℕ → Directory → Directory
complete a actual d = record d {
  jobs = update (λ j. j.job_id == a.job_id) (settle a actual) d.jobs;
  assignments =
      update (λ b. b.assignment_id == a.assignment_id)
        (λ b. record b { status = AssignmentStatus.complete; actual_worker_ms = some actual })
        d.assignments;
}

-- `reconcile` of the row that was found. An assignment that has ended is left as it is. Without a row
-- of the job the UPDATE of jobs changes nothing.
pub reconcile_row : ℕ → Directory → Option AssignmentRow → Directory × Bool
unfolding complete
reconcile_row actual d none = (d, false)
reconcile_row actual d (some a) =
    if ltb a.reserved_worker_ms actual
    then (d, false)
    else if not (is_live a.status)
    then (d, true)
    else (complete a actual d, true)

-- `reconcile`.
unfoldable pub reconcile : ℕ → ℕ → ℕ → Directory → Directory × Bool
unfolding reconcile_row
reconcile session id actual d =
    reconcile_row actual d
      (find? (λ a. a.assignment_id == id && a.session_id == session) d.assignments)

-- The part of `assign` for a previous assignment.
abbrev pub reconcile_previous : ℕ → Option PreviousSwarmAssignment → Directory → Directory × Bool
unfolding reconcile
reconcile_previous session none d = (d, true)
reconcile_previous session (some p) d = reconcile session p.assignment_id p.active_worker_ms d

-- The row of the job that was selected.
abbrev pub charge_job : Selected → ℕ → ActiveJobRow → ActiveJobRow
charge_job s now j = record j {
  virtual_worker_ms = j.virtual_worker_ms + swarm_assignment_quantum_ms * s.workers;
  reserved_worker_ms = j.reserved_worker_ms + swarm_assignment_quantum_ms * s.workers;
  assigned_workers = j.assigned_workers + s.workers;
  last_service_at = now;
}

-- The writes of `assign` for the job that was selected.
pub reserve : ℕ → ℕ → Selected → ℕ → Directory → Directory
reserve id session s now d = record d {
  assignments =
      record {
        assignment_id = id;
        job_id = s.job.job_id;
        session_id = session;
        workers = s.workers;
        reserved_worker_ms = swarm_assignment_quantum_ms * s.workers;
        actual_worker_ms = none;
        status = AssignmentStatus.pending;
        assigned_at = now;
        expires_at = now + swarm_assignment_activation_ms;
      }
      ∷ d.assignments;
  jobs = update (λ j. j.job_id == s.job.job_id) (charge_job s now) d.jobs;
}

abbrev offer : ℕ → WorkerCapabilities → Selected → Assigned
unfolding calibrated_task_profile
offer id capabilities s = record {
  assignment_id = id;
  job_id = s.job.job_id;
  workers = s.workers;
  quantum_ms = swarm_assignment_quantum_ms;
  reserved_worker_ms = swarm_assignment_quantum_ms * s.workers;
  conflict_budget = (calibrated_task_profile capabilities).conflict_budget;
  lease_target_ms = (calibrated_task_profile capabilities).lease_duration_ms;
}

-- A primary key that is taken is the exception.
pub serve :
    ℕ → ℕ → WorkerCapabilities → ℕ → Directory → Option Selected → Directory × SwarmAssignmentResult
unfolding offer reserve
serve id session capabilities now d none = (d, SwarmAssignmentResult.no_work)
serve id session capabilities now d (some s) =
    if ltb 0 (count (λ a. a.assignment_id == id) d.assignments)
    then (d, SwarmAssignmentResult.failed)
    else (reserve id session s now d, SwarmAssignmentResult.assigned (offer id capabilities s))

-- The transaction of `assign`.
pub assign_within :
    ℕ
    → ℕ
    → WorkerCapabilities
    → Option PreviousSwarmAssignment
    → ℕ
    → Directory
    → Directory × SwarmAssignmentResult
unfolding expire_assignments reconcile_previous serve active_fair_jobs
assign_within id session capabilities previous now d =
    let reconciled = reconcile_previous session previous (expire_assignments now d) in
    if reconciled.1
    then serve id session capabilities now reconciled.0
        (select_fair_job (active_fair_jobs reconciled.0.jobs) capabilities.max_workers now)
    else (reconciled.0, SwarmAssignmentResult.invalid_assignment)

-- An exception takes the transaction back.
abbrev pub commit :
    Directory → Directory × SwarmAssignmentResult → Directory × SwarmAssignmentResult
unfolding schedule_next_alarm
commit d (d', SwarmAssignmentResult.failed) = (d, SwarmAssignmentResult.failed)
commit d (d', r) = (schedule_next_alarm d', r)

-- `assign`, with the random id of the assignment.
unfoldable pub assign :
    ℕ
    → ℕ
    → WorkerCapabilities
    → Option PreviousSwarmAssignment
    → ℕ
    → Directory
    → Directory × SwarmAssignmentResult
unfolding assign_within commit
assign id session capabilities previous now d =
    commit d (assign_within id session capabilities previous now d)

-- The transaction of `activate`, after the look-up.
pub activate_row : ℕ → Directory → Option AssignmentRow → Directory × Bool
activate_row now d none = (d, false)
activate_row now d (some a) =
    if is_active a.status
    then (d, true)
    else if not (is_pending a.status) || leb a.expires_at now
    then (d, false)
    else (
      record d {
        assignments =
            update (λ b. b.assignment_id == a.assignment_id && is_pending b.status)
              (λ b. record b {
                status = AssignmentStatus.active;
                assigned_at = now;
                expires_at = now + swarm_assignment_quantum_ms;
              })
              d.assignments;
      },
      true,
    )

pub activate_within : ℕ → ℕ → ℕ → ℕ → Directory → Directory × Bool
unfolding activate_row
activate_within id session job now d =
    activate_row now d (
      find? (λ a. a.assignment_id == id && a.session_id == session && a.job_id == job)
        d.assignments)

-- `activate`.
unfoldable pub activate : ℕ → ℕ → ℕ → ℕ → Directory → Directory × Bool
unfolding activate_within expire_assignments schedule_next_alarm
activate id session job now d =
    let r = activate_within id session job now (expire_assignments now d) in
    (schedule_next_alarm r.0, r.1)

-- `alarm`.
unfoldable pub alarm : ℕ → Directory → Directory
unfolding expire_assignments schedule_next_alarm
alarm now d =
    let expired = expire_assignments now d in
    schedule_next_alarm (record expired {
      jobs = filter (λ j. not (leb j.expires_at now)) expired.jobs;
      events = filter (λ e. not (leb (e.created_at + creation_window_ms) now)) expired.events;
      replays = filter (λ r. not (leb r.expires_at now)) expired.replays;
    })

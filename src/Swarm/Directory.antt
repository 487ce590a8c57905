-- ===== src/Swarm/Directory.antt =====
-- The operations of `SwarmDirectoryDO` in worker/swarm-directory.ts. Each runs between two awaits of
-- the durable object, which answers one request at a time.
pub mod Balance
pub mod Admission
use hive_sat.Prelude.{
  ℕ, ◌+◌, min, Bool, true, false, not, ◌&&◌, ◌||◌, List, [], ◌∷◌, ◌++◌, map, Option, none, some,
  length, filter, ltb, leb, ◌==◌, if◌then◌else◌,
}
use hive_sat.Prelude.Rows.{least, update, count, first_by, sum_of}
use hive_sat.Swarm.State.{
  creation_window_ms, max_creations_per_window, swarm_max_job_workers, ActiveJobRow, CreationRow,
  AssignmentStatus, Directory, AdmissionInput, AdmissionResult,
}
use hive_sat.Swarm.FairScheduler.{FairJob, new_job_virtual_runtime}

abbrev pub is_pending : AssignmentStatus → Bool
is_pending AssignmentStatus.pending = true
is_pending _ = false

abbrev pub is_active : AssignmentStatus → Bool
is_active AssignmentStatus.active = true
is_active _ = false

-- status IN ('PENDING', 'ACTIVE')
abbrev pub is_live : AssignmentStatus → Bool
is_live s = is_pending s || is_active s

-- The times at which a row of one of the tables ends.
abbrev pub deadlines : Directory → List ℕ
deadlines d =
    map (λ j. j.expires_at) d.jobs
    ++ map (λ a. a.expires_at) (filter (λ a. is_live a.status) d.assignments)
    ++ map (λ r. r.expires_at) d.replays
    ++ map (λ e. e.created_at + creation_window_ms) d.events

-- `scheduleNextAlarm`.
unfoldable pub schedule_next_alarm : Directory → Directory
schedule_next_alarm d = record d { alarm = least (deadlines d) }

-- `consumeTurnstile`.
unfoldable pub consume_turnstile : ℕ → ℕ → ℕ → Directory → Directory × Bool
unfolding schedule_next_alarm
consume_turnstile token expires_at now d =
    let kept = filter (λ r. not (leb r.expires_at now)) d.replays in
    if ltb 0 (count (λ r. r.token_digest == token) kept)
    then (schedule_next_alarm (record d { replays = kept }), false)
    else (
      schedule_next_alarm
          (record d { replays = record { token_digest = token; expires_at = expires_at } ∷ kept }),
      true,
    )

-- `activeFairJobs`.
unfoldable pub active_fair_jobs : List ActiveJobRow → List FairJob
active_fair_jobs jobs =
    map
      (λ j. record {
        job_id = j.job_id;
        virtual_worker_ms = j.virtual_worker_ms;
        assigned_workers = j.assigned_workers;
        last_service_at = j.last_service_at;
      })
      (filter (λ j. j.eligible && ltb j.assigned_workers swarm_max_job_workers) jobs)

-- device_digest = ? OR network_digest = ?
abbrev same_creator_job : AdmissionInput → ActiveJobRow → Bool
same_creator_job i j = j.device_digest == i.device_digest || j.network_digest == i.network_digest

abbrev pub same_creator : AdmissionInput → CreationRow → Bool
same_creator i e = e.device_digest == i.device_digest || e.network_digest == i.network_digest

-- The rows of the window that starts CREATION_WINDOW_MS before `created_at`.
abbrev pub in_window : ℕ → CreationRow → Bool
in_window now e = leb now (e.created_at + creation_window_ms)

-- The earliest time for a retry, if the creator has no creation left.
abbrev rate_limit : AdmissionInput → List CreationRow → Option ℕ
rate_limit i events =
    let recent = filter (λ e. same_creator i e && in_window i.created_at e) events in
    if not i.bypass_creation_rate_limit && leb max_creations_per_window (length recent)
    then elim (first_by (λ a b. ltb a.created_at b.created_at) recent) [
      | none ↦ none
      | some e ↦ some (e.created_at + creation_window_ms)
    ]
    else none

-- A unique column of one of the two rows is taken.
abbrev is_taken : AdmissionInput → Directory → Bool
is_taken i d =
    ltb 0 (count (λ j. j.job_id == i.job_id || same_creator_job i j) d.jobs)
    || ltb 0 (count (λ e. e.job_id == i.job_id) d.events)

pub new_job : AdmissionInput → Directory → ActiveJobRow
unfolding active_fair_jobs
new_job i d = record {
  job_id = i.job_id;
  device_digest = i.device_digest;
  network_digest = i.network_digest;
  created_at = i.created_at;
  expires_at = i.expires_at;
  eligible = false;
  virtual_worker_ms = new_job_virtual_runtime (active_fair_jobs d.jobs);
  reserved_worker_ms = 0;
  assigned_workers = 0;
  last_service_at = i.created_at;
}

abbrev new_event : AdmissionInput → CreationRow
new_event i = record {
  job_id = i.job_id;
  device_digest = i.device_digest;
  network_digest = i.network_digest;
  created_at = i.created_at;
}

-- The transaction of `admit`.
pub insert_job : AdmissionInput → Directory → Directory × AdmissionResult
unfolding new_job schedule_next_alarm
insert_job i d = if is_taken i d then (d, AdmissionResult.failed) else (
  schedule_next_alarm (record d { jobs = new_job i d ∷ d.jobs; events = new_event i ∷ d.events }),
  AdmissionResult.admitted,
)

-- DELETE FROM creation_events WHERE created_at <= now - CREATION_WINDOW_MS
abbrev forget_events : ℕ → Directory → Directory
forget_events now d = record d {
  events = filter (λ e. not (leb (e.created_at + creation_window_ms) now)) d.events;
}

abbrev pub admit_within : AdmissionInput → Directory → Directory × AdmissionResult
unfolding insert_job
admit_within i d =
    if leb i.global_ceiling (length d.jobs)
    then (d, AdmissionResult.global_job_limit)
    else if ltb 0 (count (same_creator_job i) d.jobs)
    then (d, AdmissionResult.active_job_limit)
    else elim (rate_limit i d.events) [
      | none ↦ insert_job i d
      | some t ↦ (d, AdmissionResult.creation_rate_limit t)
    ]

-- `admit`.
unfoldable pub admit : AdmissionInput → Directory → Directory × AdmissionResult
unfolding insert_job
admit i d = admit_within i (forget_events i.created_at d)

-- `close`.
unfoldable pub close : ℕ → Directory → Directory
unfolding schedule_next_alarm
close id d = schedule_next_alarm (record d {
  assignments =
      update (λ a. a.job_id == id && is_live a.status)
        (λ a. record a { status = AssignmentStatus.cancelled }) d.assignments;
  jobs = filter (λ j. not (j.job_id == id)) d.jobs;
})

-- `setEligible`; the count of rows written is positive if a row matches.
unfoldable pub set_eligible : ℕ → Bool → ℕ → Directory → Directory × Bool
set_eligible id eligible now d =
    let differs : ActiveJobRow → Bool =
      λ j. j.job_id == id && (if eligible then not j.eligible else j.eligible) in
    (
      record d {
        jobs = update differs (λ j. record j { eligible = eligible; last_service_at = now }) d.jobs;
      },
      ltb 0 (count differs d.jobs),
    )

-- `markReady`.
unfoldable pub mark_ready : ℕ → ℕ → Directory → Directory × Bool
unfolding set_eligible
mark_ready id now d = set_eligible id true now d

-- `known`.
unfoldable pub known : ℕ → ℕ → Directory → Bool
known id now d = ltb 0 (count (λ e. e.job_id == id && in_window now e) d.events)

-- `rollback`.
unfoldable pub rollback : ℕ → Directory → Directory
unfolding schedule_next_alarm
rollback id d = schedule_next_alarm (record d {
  jobs = filter (λ j. not (j.job_id == id)) d.jobs;
  events = filter (λ e. not (e.job_id == id)) d.events;
})

pub record Snapshot : Type 0 where
  pub active_jobs : ℕ
  pub active_workers : ℕ

-- `snapshot`.
unfoldable pub snapshot : Directory → Snapshot
snapshot d =
    let eligible = filter (λ j. j.eligible) d.jobs in
    record {
      active_jobs = length eligible;
      active_workers = sum_of (λ j. j.assigned_workers) eligible;
    }

pub record QuotaSnapshot : Type 0 where
  pub active : Snapshot
  pub active_assignments : ℕ
  pub reserved_worker_ms : ℕ
  pub directory_connections : ℕ
  pub creations_in_window : ℕ

-- `quotaSnapshot`, with the number of open sockets.
unfoldable pub quota_snapshot : ℕ → ℕ → Directory → QuotaSnapshot
unfolding snapshot
quota_snapshot connections now d =
    let live = filter (λ a. is_live a.status) d.assignments in
    record {
      active = snapshot d;
      active_assignments = length live;
      reserved_worker_ms = sum_of (λ a. a.reserved_worker_ms) live;
      directory_connections = connections;
      creations_in_window = count (in_window now) d.events;
    }

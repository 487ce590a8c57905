-- ===== src/Coordinator/Leases.antt =====
-- The life of a lease in worker/job-coordinator.ts: `activeLease`, `leaseWorkForSlot`,
-- `rollbackUndeliveredLease`, `handleYield`, `handleSessionHeartbeat`, `webSocketClose`,
-- `releaseQuarantinedSessionLeases`, and the expiry of leases in `alarm`.
-- A random id is an argument.
pub mod Answers
pub mod Deadlines
use hive_sat.Prelude.{
  ℕ, suc, ◌+◌, Bool, true, false, ◌&&◌, ◌||◌, not, List, [], ◌∷◌, Option, none, some, filter, find?,
  take, length, ltb, leb, ◌==◌, if◌then◌else◌, min,
}
use hive_sat.Coordinator.State.{
  JobState, JobRow, TaskState, TaskRow, LeaseRow, LeaseStatus, SplitPermitRow, PermitStatus, Db,
  Response, ack, error, Action, ErrorCode, stale_lease, SessionProfileRow, YieldMessage,
  YieldReason, unsupported, HeartbeatSlot, SessionHeartbeatMessage, lease_duration_ms,
  max_lease_tenure_ms, lease_renew_threshold_ms, split_seed_ms, alarm_batch_size,
}
use hive_sat.Coordinator.Tables.{
  update, count, first_by, sort_by, holds, is_some, is_open, is_ready, is_leased, is_active,
  is_permit_active, task, lease_by_id, CubeTask, to_cube_task, processed_response, record_processed,
  prune_processed,
}

-- An active lease on a task that still holds it.
abbrev pub is_current : List TaskRow → ℕ → ℕ → ℕ → ℕ → LeaseRow → Bool
is_current tasks session task_id lease_id now l =
    l.lease_id == lease_id
    && l.task_id == task_id
    && l.session_id == session
    && is_active l.status
    && ltb now l.expires_at
    && elim (task task_id tasks) [
      | none ↦ false
      | some t ↦ is_leased t.state && holds t.active_lease_id l.lease_id
    ]

-- `activeLease`.
unfoldable pub active_lease : ℕ → ℕ → ℕ → ℕ → Db → Option LeaseRow
active_lease session task_id lease_id now db =
    find? (is_current db.tasks session task_id lease_id now) db.leases

-- UPDATE leases SET status = ? WHERE lease_id = ? AND status = 'ACTIVE'
abbrev pub end_lease : ℕ → LeaseStatus → List LeaseRow → List LeaseRow
end_lease id status leases =
    update (λ l. l.lease_id == id && is_active l.status) (λ l. record l { status = status }) leases

-- UPDATE tasks SET state = 'READY', active_lease_id = NULL ... WHERE task_id = ? AND
-- active_lease_id = ?
abbrev pub free_task : ℕ → ℕ → ℕ → List TaskRow → List TaskRow
free_task now task_id lease_id tasks =
    update (λ t. t.task_id == task_id && holds t.active_lease_id lease_id)
      (λ t. record t { state = TaskState.ready; active_lease_id = none; updated_at = now }) tasks

-- UPDATE split_permits SET status = 'CANCELLED' WHERE lease_id = ? AND status = 'ACTIVE'
abbrev pub cancel_permits : ℕ → List SplitPermitRow → List SplitPermitRow
cancel_permits lease_id permits =
    update (λ p. p.lease_id == lease_id && is_permit_active p.status)
      (λ p. record p { status = PermitStatus.cancelled }) permits

-- The assignment that a `WORK` frame carries.
pub record Work : Type 0 where
  pub slot_id : ℕ
  pub task : CubeTask
  pub lease : LeaseRow

-- ORDER BY depth, created_at, task_id
abbrev pub before_by_depth : TaskRow → TaskRow → Bool
before_by_depth a b =
    ltb a.depth b.depth
    || (a.depth == b.depth
        && (ltb a.created_at b.created_at
            || (a.created_at == b.created_at && ltb a.task_id b.task_id)))

-- ORDER BY proof_required DESC, depth, created_at, task_id
abbrev pub before_by_proof : TaskRow → TaskRow → Bool
before_by_proof a b =
    (a.proof_required && not b.proof_required)
    || ((not a.proof_required || b.proof_required)
        && (not b.proof_required || a.proof_required)
        && before_by_depth a b)

-- The task that is leased next to a session that can, or cannot, write proofs.
unfoldable pub next_task : Bool → List TaskRow → Option TaskRow
next_task true tasks = first_by before_by_proof (filter (λ t. is_ready t.state) tasks)
next_task false tasks =
    first_by before_by_depth (filter (λ t. is_ready t.state && not t.proof_required) tasks)

abbrev pub proof_generation : ℕ → List SessionProfileRow → Bool
proof_generation session profiles = elim (find? (λ p. p.session_id == session) profiles) [
  | none ↦ false
  | some p ↦ p.proof_generation
]

-- The lease of a task to a slot.
abbrev pub new_lease : JobRow → TaskRow → ℕ → ℕ → ℕ → ℕ → LeaseRow
new_lease job t session slot lease_id now =
    let maximum = min (now + max_lease_tenure_ms) job.expires_at in
    record {
      lease_id = lease_id;
      task_id = t.task_id;
      session_id = session;
      slot_id = slot;
      lease_count = t.lease_count + 1;
      issued_at = now;
      expires_at = min (now + lease_duration_ms) maximum;
      maximum_expires_at = maximum;
      last_active_ms = 0;
      status = LeaseStatus.active;
    }

abbrev pub start_job : JobRow → JobRow
start_job job = elim job.state [
  | JobState.queued ↦ record job { state = JobState.running }
  | _ ↦ job
]

-- The writes of `leaseWorkForSlot`.
unfoldable pub grant : JobRow → TaskRow → LeaseRow → Db → Db
grant job t lease db = record db {
  job = some (start_job job);
  tasks =
      update (λ r. r.task_id == t.task_id && is_ready r.state)
        (λ r. record r {
          state = TaskState.leased;
          lease_count = lease.lease_count;
          active_lease_id = some lease.lease_id;
          updated_at = lease.issued_at;
        })
        db.tasks;
  leases = lease ∷ db.leases;
}

abbrev pub is_busy : ℕ → ℕ → ℕ → LeaseRow → Bool
is_busy session slot now l =
    l.session_id == session && l.slot_id == slot && is_active l.status && ltb now l.expires_at

abbrev grant_next : JobRow → ℕ → ℕ → ℕ → ℕ → Option TaskRow → Db → Db × Option Work
grant_next job session slot lease_id now none db = (db, none)
grant_next job session slot lease_id now (some t) db =
    let lease = new_lease job t session slot lease_id now in
    (grant job t lease db, some (record { slot_id = slot; task = to_cube_task t; lease = lease }))

abbrev lease_work : ℕ → ℕ → ℕ → ℕ → Option JobRow → Db → Db × Option Work
lease_work session slot lease_id now none db = (db, none)
lease_work session slot lease_id now (some job) db =
    if not (is_open job.state) || leb job.expires_at now
    then (db, none)
    else if ltb 0 (count (is_busy session slot now) db.leases)
    then (db, none)
    else grant_next job session slot lease_id now
        (next_task (proof_generation session db.profiles) db.tasks) db

-- `leaseWorkForSlot`, with the fresh lease id.
unfoldable pub lease_work_for_slot : ℕ → ℕ → ℕ → ℕ → Db → Db × Option Work
unfolding grant
lease_work_for_slot session slot lease_id now db = lease_work session slot lease_id now db.job db

-- The writes that end a lease and free its task.
pub release : ℕ → LeaseStatus → LeaseRow → Db → Db
release now status l db = record db {
  leases = end_lease l.lease_id status db.leases;
  tasks = free_task now l.task_id l.lease_id db.tasks;
  permits = cancel_permits l.lease_id db.permits;
}

-- `rollbackUndeliveredLease`: the permits stay as they are.
pub rollback_undelivered_lease : ℕ → ℕ → Db → Db
rollback_undelivered_lease lease_id now db =
    elim (find? (λ l. l.lease_id == lease_id && is_active l.status) db.leases) [
      | none ↦ db
      | some l ↦ record db {
        leases =
            update (λ r. r.lease_id == lease_id) (λ r. record r { status = LeaseStatus.expired })
              db.leases;
        tasks = free_task now l.task_id lease_id db.tasks;
      }
    ]

-- A loop that releases some leases.
pub release_all : ℕ → LeaseStatus → List LeaseRow → Db → Db
unfolding release
release_all now status [] db = db
release_all now status (l ∷ ls) db = release_all now status ls (release now status l db)

-- The transaction of `webSocketClose` after "Client stopped".
pub close_session : ℕ → ℕ → Db → Db
unfolding release_all
close_session session now db =
    release_all now LeaseStatus.yielded
      (filter (λ l. l.session_id == session && is_active l.status) db.leases) db

-- ORDER BY expires_at, lease_id
abbrev by_deadline : LeaseRow → LeaseRow → Bool
by_deadline a b =
    ltb a.expires_at b.expires_at || (a.expires_at == b.expires_at && ltb a.lease_id b.lease_id)

-- One round of the loop of `alarm`: the permits fall only with the task.
pub expire : ℕ → LeaseRow → Db → Db
expire now l db =
    let leases = end_lease l.lease_id LeaseStatus.expired db.leases in
    elim (find? (λ t. t.task_id == l.task_id && holds t.active_lease_id l.lease_id) db.tasks) [
      | none ↦ record db { leases = leases }
      | some t ↦ record db {
        leases = leases;
        tasks = free_task now t.task_id l.lease_id db.tasks;
        permits = cancel_permits l.lease_id db.permits;
      }
    ]

pub expire_all : ℕ → List LeaseRow → Db → Db
unfolding expire
expire_all now [] db = db
expire_all now (l ∷ ls) db = expire_all now ls (expire now l db)

abbrev pub expired_leases : ℕ → Db → List LeaseRow
expired_leases now db =
    take alarm_batch_size
      (sort_by by_deadline (filter (λ l. is_active l.status && leb l.expires_at now) db.leases))

-- The transaction of `alarm` on a job that is neither cancelled nor expired.
pub alarm_expiry : ℕ → Db → Db
unfolding expire_all
alarm_expiry now db =
    let db' = expire_all now (expired_leases now db) db in
    record db' { processed = prune_processed db'.processed }

-- `releaseQuarantinedSessionLeases`: the task is freed only while it is leased.
pub release_quarantined : ℕ → LeaseRow → Db → Db
release_quarantined now l db = record db {
  leases = end_lease l.lease_id LeaseStatus.superseded db.leases;
  tasks =
      update
        (λ t. t.task_id == l.task_id && is_leased t.state && holds t.active_lease_id l.lease_id)
        (λ t. record t { state = TaskState.ready; active_lease_id = none; updated_at = now })
        db.tasks;
  permits = cancel_permits l.lease_id db.permits;
}

pub release_quarantined_all : ℕ → List LeaseRow → Db → Db
unfolding release_quarantined
release_quarantined_all now [] db = db
release_quarantined_all now (l ∷ ls) db =
    release_quarantined_all now ls (release_quarantined now l db)

pub release_quarantined_session_leases : ℕ → ℕ → Db → Db
unfolding release_quarantined_all
release_quarantined_session_leases session now db =
    release_quarantined_all now
      (filter (λ l. l.session_id == session && is_active l.status) db.leases) db

-- UPDATE session_profiles SET proof_generation = 0 ..., after the reason `UNSUPPORTED`.
abbrev demote : YieldReason → ℕ → ℕ → List SessionProfileRow → List SessionProfileRow
demote unsupported session now profiles =
    update (λ p. p.session_id == session)
      (λ p. record p { proof_generation = false; updated_at = now }) profiles
demote _ session now profiles = profiles

abbrev pub yield_lease : ℕ → YieldMessage → ℕ → Option LeaseRow → Db → Db × Response
yield_lease session m now none db = (db, error stale_lease false m.message_id)
yield_lease session m now (some l) db =
    if l.slot_id == m.slot_id
    then (let response = ack m.message_id now Action.yield none in
        (
          record_processed session m.message_id response now (record db {
            tasks = free_task now m.task_id m.lease_id db.tasks;
            leases =
                update (λ r. r.lease_id == m.lease_id)
                  (λ r. record r { status = LeaseStatus.yielded }) db.leases;
            permits = cancel_permits m.lease_id db.permits;
            profiles = demote m.reason session now db.profiles;
          }),
          response,
        ))
    else (db, error stale_lease false m.message_id)

-- `handleYield`.
unfoldable pub handle_yield : ℕ → YieldMessage → ℕ → Db → Db × Response
unfolding active_lease record_processed
handle_yield session m now db = elim (processed_response session m.message_id db.processed) [
  | some r ↦ (db, r)
  | none ↦ yield_lease session m now (active_lease session m.task_id m.lease_id now db) db
]

-- The new deadline and the recorded time of a lease that a heartbeat renews or seeds.
abbrev heartbeat_lease : ℕ → ℕ → ℕ → LeaseRow → LeaseRow
heartbeat_lease job_expires_at now active_ms l =
    let renew = leb l.expires_at (now + lease_renew_threshold_ms) in
    let crossed = ltb l.last_active_ms split_seed_ms && leb split_seed_ms active_ms in
    if leb active_ms l.last_active_ms || (not crossed && not renew)
    then l
    else (let recorded = if renew then active_ms else split_seed_ms in
        if ltb l.last_active_ms recorded
        then record l {
          last_active_ms = recorded;
          expires_at =
              if renew
              then min (now + lease_duration_ms) (min l.maximum_expires_at job_expires_at)
              else l.expires_at;
        }
        else l)

-- `this.job()?.expires_at ?? lease.maximum_expires_at`
abbrev job_deadline : Option JobRow → LeaseRow → ℕ
job_deadline none l = l.maximum_expires_at
job_deadline (some job) l = job.expires_at

abbrev heartbeat_slot : ℕ → ℕ → HeartbeatSlot → Option ℕ → Db → Db
heartbeat_slot session now s none db = db
heartbeat_slot session now s (some lease_id) db = record db {
  leases =
      update
        (λ l.
          l.lease_id == lease_id
          && l.session_id == session
          && l.slot_id == s.slot_id
          && is_active l.status)
        (λ l. heartbeat_lease (job_deadline db.job l) now s.active_ms l) db.leases;
}

pub heartbeat_slots : ℕ → ℕ → List HeartbeatSlot → Db → Db
heartbeat_slots session now [] db = db
heartbeat_slots session now (s ∷ ss) db =
    heartbeat_slots session now ss (heartbeat_slot session now s s.lease_id db)

-- `handleSessionHeartbeat`: it is not recorded as processed. The duplicate check is that of
-- `handleClientMessage`.
pub handle_session_heartbeat : ℕ → SessionHeartbeatMessage → ℕ → Db → Db × Response
unfolding heartbeat_slots
handle_session_heartbeat session m now db =
    elim (processed_response session m.message_id db.processed) [
      | some r ↦ (db, r)
      | none ↦ (
        heartbeat_slots session now m.slots db,
        ack m.message_id now Action.session_heartbeat none,
      )
    ]

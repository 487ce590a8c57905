-- ===== src/Coordinator/Alarm.antt =====
-- `scheduleNextAlarm`, `nextSplitSeedAt` and `hasExpiredLease` of worker/job-coordinator.ts: when the
-- job's alarm rings next.
pub mod Bounds
use hive_sat.Prelude.{
  ℕ, ◌+◌, ◌-◌, ◌*◌, min, max, Bool, not, ◌&&◌, List, [], ◌∷◌, Option, none, some, map, filter, any,
  length, ltb, leb, ◌==◌, if◌then◌else◌,
}
use hive_sat.Prelude.Rows.{count, least}
use hive_sat.Coordinator.State.{
  JobRow, LeaseRow, Db, Session, split_seed_ms, max_tasks, max_frontier,
}
use hive_sat.Coordinator.Tables.{is_active, is_permit_active, task}
use hive_sat.Coordinator.Split.{connected_slots, busy_slots, frontier, splittable_task}

-- `hasExpiredLease`
unfoldable pub has_expired_lease : ℕ → Db → Bool
has_expired_lease now db = ltb 0 (count (λ l. is_active l.status && leb l.expires_at now) db.leases)

-- A lease whose task can be split, and that has no permit yet.
abbrev pub is_seedable : ℕ → Db → LeaseRow → Bool
is_seedable now db l =
    is_active l.status
    && ltb now l.expires_at
    && splittable_task (task l.task_id db.tasks)
    && not (any (λ p. p.lease_id == l.lease_id && is_permit_active p.status) db.permits)

abbrev pub seed_after : ℕ → Option ℕ → Option ℕ
seed_after now none = none
seed_after now (some t) = some (max (now + split_seed_ms) t)

-- `nextSplitSeedAt`
unfoldable pub next_split_seed_at : ℕ → List Session → Db → Option ℕ
next_split_seed_at now sessions db =
    let slots = connected_slots sessions in
    let outstanding = count (λ p. is_permit_active p.status && ltb now p.expires_at) db.permits in
    if slots == 0
    then none
    else if leb slots (busy_slots now db)
    then none
    else if ltb (max_tasks - 2) (length db.tasks)
    then none
    else if leb (min (slots * 2) max_frontier) (frontier db + outstanding)
    then none
    else seed_after now
        (least (map (λ l. l.issued_at + split_seed_ms) (filter (is_seedable now db) db.leases)))

-- `??`
abbrev pub or_else : Option ℕ → ℕ → ℕ
or_else none t = t
or_else (some u) t = u

abbrev pub alarm_of : ℕ → List Session → Db → JobRow → ℕ
alarm_of now sessions db job =
    let leases = least (map (λ l. l.expires_at) (filter (λ l. is_active l.status) db.leases)) in
    let permits =
      least (map (λ p. p.expires_at) (filter (λ p. is_permit_active p.status) db.permits)) in
    min (min job.expires_at (or_else leases job.expires_at)) (
      min (or_else permits job.expires_at)
        (or_else (next_split_seed_at now sessions db) job.expires_at))

-- `scheduleNextAlarm`: the time of the alarm; none is set for a job that is gone.
unfoldable pub schedule_next_alarm : ℕ → List Session → Db → Option ℕ
unfolding next_split_seed_at
schedule_next_alarm now sessions db = elim db.job [
  | none ↦ none
  | some job ↦ some (alarm_of now sessions db job)
]

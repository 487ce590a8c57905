-- ===== src/Coordinator/Leases/Deadlines.antt =====
-- The deadlines of leases in worker/job-coordinator.ts.
use hive_sat.Prelude.{
  ◌&&◌, ◌||◌, not, ℕ, ◌≤◌, ◌+◌, min, Bool, true, false, not, ◌||◌, List, [], ◌∷◌, Option, none,
  some, ltb, leb, if◌then◌else◌, arith, Bool-cases, Option-cases, inl, inr, All,
}
use hive_sat.Coordinator.State.{
  JobRow, TaskRow, LeaseRow, Db, HeartbeatSlot, SessionHeartbeatMessage, max_lease_tenure_ms,
  lease_duration_ms,
}
use hive_sat.Coordinator.Tables.{All-update, count, is_open, processed_response}
use hive_sat.Coordinator.Leases.{
  split_seed_ms, lease_renew_threshold_ms, new_lease, is_busy, next_task, proof_generation, grant,
  grant_next, lease_work, lease_work_for_slot, heartbeat_lease, job_deadline, heartbeat_slot,
  heartbeat_slots, handle_session_heartbeat,
}

-- A lease ends at the latest at its maximum, which is at most an hour after its issue.
pub record Timely (l : LeaseRow) : Type 0 where
  pub before_maximum : l.expires_at ≤ l.maximum_expires_at
  pub within_tenure : l.maximum_expires_at ≤ l.issued_at + max_lease_tenure_ms

new_lease-Timely :
    (job : JobRow) (t : TaskRow) (session slot lease_id now : ℕ)
    → Timely (new_lease job t session slot lease_id now)
new_lease-Timely job t session slot lease_id now = record {
  before_maximum = omega arith;
  within_tenure = omega arith;
}

heartbeat_lease-Timely :
    (job_expires_at now active_ms : ℕ) (l : LeaseRow)
    → Timely l
    → Timely (heartbeat_lease job_expires_at now active_ms l)
heartbeat_lease-Timely job_expires_at now active_ms l k =
    let renew = leb l.expires_at (now + lease_renew_threshold_ms) in
    let crossed = ltb l.last_active_ms split_seed_ms && leb split_seed_ms active_ms in
    let recorded = if renew then active_ms else split_seed_ms in
    pick (leb active_ms l.last_active_ms || (not crossed && not renew))
      (ltb l.last_active_ms recorded)
      (record l {
        last_active_ms = recorded;
        expires_at =
            if renew
            then min (now + lease_duration_ms) (min l.maximum_expires_at job_expires_at)
            else l.expires_at;
      })
      (record { before_maximum = renewed renew; within_tenure = k.within_tenure })
  where
    pick :
        (keep change : Bool) (l' : LeaseRow)
        → Timely l'
        → Timely (if keep then l else if change then l' else l)
    pick true change l' k' = k
    pick false true l' k' = k'
    pick false false l' k' = k

    renewed :
        (renew : Bool)
        → (if renew
            then min (now + lease_duration_ms) (min l.maximum_expires_at job_expires_at)
            else l.expires_at)
          ≤ l.maximum_expires_at
    renewed true = omega arith
    renewed false = k.before_maximum

module _ (db : Db) (s : All Timely db.leases) where
  lease_work-Timely :
      (session slot lease_id now : ℕ) (job : Option JobRow)
      → All Timely (lease_work session slot lease_id now job db).0.leases
  unfolding grant
  lease_work-Timely session slot lease_id now none = s
  lease_work-Timely session slot lease_id now (some job) =
      elim (Bool-cases (not (is_open job.state) || leb job.expires_at now)) [
        | inl e ↦ rw e s
        | inr e ↦ elim (Bool-cases (ltb 0 (count (is_busy session slot now) db.leases))) [
          | inl f ↦ rw (e, f) s
          | inr f ↦ rw (e, f) (next (next_task (proof_generation session db.profiles) db.tasks))
        ]
      ]
    where
      next :
          (t : Option TaskRow) → All Timely (grant_next job session slot lease_id now t db).0.leases
      next none = s
      next (some t) = (new_lease-Timely job t session slot lease_id now, s)

  -- If the leases of a job are timely, then they are after a slot has asked for work.
  pub lease_work_for_slot-Timely :
      (session slot lease_id now : ℕ)
      → All Timely (lease_work_for_slot session slot lease_id now db).0.leases
  unfolding lease_work_for_slot
  lease_work_for_slot-Timely session slot lease_id now =
      lease_work-Timely session slot lease_id now db.job

heartbeat_slots-Timely :
    (session now : ℕ) (slots : List HeartbeatSlot) (db : Db)
    → All Timely db.leases
    → All Timely (heartbeat_slots session now slots db).leases
unfolding heartbeat_slots
heartbeat_slots-Timely session now [] db s = s
heartbeat_slots-Timely session now (h ∷ hs) db s =
    heartbeat_slots-Timely session now hs (heartbeat_slot session now h h.lease_id db)
      (one h.lease_id)
  where
    one : (o : Option ℕ) → All Timely (heartbeat_slot session now h o db).leases
    one none = s
    one (some id) =
        All-update Timely _ _
          (λ l k e. heartbeat_lease-Timely (job_deadline db.job l) now h.active_ms l k) db.leases s

-- If the leases of a job are timely, then they are after any heartbeat: renewals never pass the
-- maximum of a lease.
pub handle_session_heartbeat-Timely :
    (session : ℕ) (m : SessionHeartbeatMessage) (now : ℕ) (db : Db)
    → All Timely db.leases
    → All Timely (handle_session_heartbeat session m now db).0.leases
unfolding handle_session_heartbeat
handle_session_heartbeat-Timely session m now db s =
    elim (Option-cases (processed_response session m.message_id db.processed)) [
      | inr (r, e) ↦ rw (e, handle_session_heartbeat) s
      | inl e ↦ rw (e, handle_session_heartbeat) (heartbeat_slots-Timely session now m.slots db s)
    ]

-- ===== src/Coordinator/Leases/Answers.antt =====
-- The lease operations of worker/job-coordinator.ts certify nothing: they keep the meaning of the
-- answers.
use hive_sat.Prelude.{
  ℕ, refl, not, ◌&&◌, ◌||◌, List, [], ◌∷◌, Option, none, some, filter, find?, ltb, leb, ◌==◌, ℤ,
  arith, Bool-cases, Option-cases, inl, inr,
}
use hive_sat.Coordinator.State.{
  JobRow, TaskRow, LeaseRow, LeaseStatus, Db, YieldMessage, HeartbeatSlot, SessionHeartbeatMessage,
}
use hive_sat.Coordinator.Tables.{
  count, holds, is_open, is_active, processed_response, record_processed,
}
use hive_sat.Coordinator.Answers.{Sound, TasksSound, JobFacts, JobSound, TasksSound-demote}
use hive_sat.Coordinator.Leases.{
  active_lease, free_task, start_job, grant, is_busy, grant_next, lease_work, lease_work_for_slot,
  release, release_all, close_session, rollback_undelivered_lease, expire, expire_all,
  expired_leases, alarm_expiry, release_quarantined, release_quarantined_all,
  release_quarantined_session_leases, yield_lease, handle_yield, heartbeat_slot, heartbeat_slots,
  handle_session_heartbeat,
}

module _ (formula : List (List ℤ)) (upload : Type 0) (watched : List TaskRow) where
  pub free_task-TasksSound :
      (now task_id lease_id : ℕ) (ts : List TaskRow)
      → TasksSound formula watched ts
      → TasksSound formula watched (free_task now task_id lease_id ts)
  free_task-TasksSound now task_id lease_id ts s =
      TasksSound-demote formula watched _ _ (λ t. (refl, refl)) (λ t. refl) ts s

  start_job-JobFacts :
      (j : JobRow) → JobFacts formula upload j → JobFacts formula upload (start_job j)
  start_job-JobFacts j s = record {
    unsat = λ q. s.unsat (ground arith);
    sat = λ q. s.sat (ground arith);
    uploading = λ q. s.uploading (ground arith);
  }

  grant-Sound :
      (job : JobRow) (t : TaskRow) (l : LeaseRow) (db : Db)
      → JobFacts formula upload job
      → Sound formula upload watched db
      → Sound formula upload watched (grant job t l db)
  unfolding grant
  grant-Sound job t l db j s = record {
    tasks = TasksSound-demote formula watched _ _ (λ r. (refl, refl)) (λ r. refl) db.tasks s.tasks;
    job = start_job-JobFacts job j;
  }

  grant_next-Sound :
      (job : JobRow) (session slot lease_id now : ℕ) (o : Option TaskRow) (db : Db)
      → JobFacts formula upload job
      → Sound formula upload watched db
      → Sound formula upload watched (grant_next job session slot lease_id now o db).0
  grant_next-Sound job session slot lease_id now none db j s = s
  grant_next-Sound job session slot lease_id now (some t) db j s = grant-Sound job t _ db j s

  lease_work-Sound :
      (session slot lease_id now : ℕ) (job : Option JobRow) (db : Db)
      → JobSound formula upload job
      → Sound formula upload watched db
      → Sound formula upload watched (lease_work session slot lease_id now job db).0
  lease_work-Sound session slot lease_id now none db j s = s
  lease_work-Sound session slot lease_id now (some job) db j s =
      elim (Bool-cases (not (is_open job.state) || leb job.expires_at now)) [
        | inl e ↦ rw e s
        | inr e ↦ rw e (elim (Bool-cases (ltb 0 (count (is_busy session slot now) db.leases))) [
          | inl b ↦ rw b s
          | inr b ↦ rw b (grant_next-Sound job session slot lease_id now _ db j s)
        ])
      ]

  pub lease_work_for_slot-Sound :
      (session slot lease_id now : ℕ) (db : Db)
      → Sound formula upload watched db
      → Sound formula upload watched (lease_work_for_slot session slot lease_id now db).0
  unfolding lease_work_for_slot
  lease_work_for_slot-Sound session slot lease_id now db s =
      lease_work-Sound session slot lease_id now db.job db s.job s

  release-Sound :
      (now : ℕ) (status : LeaseStatus) (l : LeaseRow) (db : Db)
      → Sound formula upload watched db
      → Sound formula upload watched (release now status l db)
  unfolding release
  release-Sound now status l db s = record {
    tasks = free_task-TasksSound now l.task_id l.lease_id db.tasks s.tasks;
    job = s.job;
  }

  release_all-Sound :
      (now : ℕ) (status : LeaseStatus) (ls : List LeaseRow) (db : Db)
      → Sound formula upload watched db
      → Sound formula upload watched (release_all now status ls db)
  unfolding release_all
  release_all-Sound now status [] db s = s
  release_all-Sound now status (l ∷ ls) db s =
      release_all-Sound now status ls (release now status l db) (release-Sound now status l db s)

  pub close_session-Sound :
      (session now : ℕ) (db : Db)
      → Sound formula upload watched db
      → Sound formula upload watched (close_session session now db)
  unfolding close_session
  close_session-Sound session now db s =
      release_all-Sound now LeaseStatus.yielded
        (filter (λ l. l.session_id == session && is_active l.status) db.leases) db s

  pub rollback_undelivered_lease-Sound :
      (lease_id now : ℕ) (db : Db)
      → Sound formula upload watched db
      → Sound formula upload watched (rollback_undelivered_lease lease_id now db)
  unfolding rollback_undelivered_lease
  rollback_undelivered_lease-Sound lease_id now db s =
      elim (Option-cases (find? (λ l. l.lease_id == lease_id && is_active l.status) db.leases)) [
        | inl e ↦ rw (e, rollback_undelivered_lease) s
        | inr (l, e) ↦
            rw (e, rollback_undelivered_lease)
              (record {
                tasks = free_task-TasksSound now l.task_id lease_id db.tasks s.tasks;
                job = s.job;
              })
      ]

  expire-Sound :
      (now : ℕ) (l : LeaseRow) (db : Db)
      → Sound formula upload watched db
      → Sound formula upload watched (expire now l db)
  unfolding expire
  expire-Sound now l db s =
      elim (Option-cases
        (find? (λ t. t.task_id == l.task_id && holds t.active_lease_id l.lease_id) db.tasks)) [
          | inl e ↦ rw (e, expire) (record { tasks = s.tasks; job = s.job })
          | inr (t, e) ↦
              rw (e, expire)
                (record {
                  tasks = free_task-TasksSound now t.task_id l.lease_id db.tasks s.tasks;
                  job = s.job;
                })
        ]

  expire_all-Sound :
      (now : ℕ) (ls : List LeaseRow) (db : Db)
      → Sound formula upload watched db
      → Sound formula upload watched (expire_all now ls db)
  unfolding expire_all
  expire_all-Sound now [] db s = s
  expire_all-Sound now (l ∷ ls) db s =
      expire_all-Sound now ls (expire now l db) (expire-Sound now l db s)

  pub alarm_expiry-Sound :
      (now : ℕ) (db : Db)
      → Sound formula upload watched db
      → Sound formula upload watched (alarm_expiry now db)
  unfolding alarm_expiry
  alarm_expiry-Sound now db s =
      let s' = expire_all-Sound now (expired_leases now db) db s in
      record { tasks = s'.tasks; job = s'.job }

  release_quarantined_all-Sound :
      (now : ℕ) (ls : List LeaseRow) (db : Db)
      → Sound formula upload watched db
      → Sound formula upload watched (release_quarantined_all now ls db)
  unfolding release_quarantined_all
  release_quarantined_all-Sound now [] db s = s
  release_quarantined_all-Sound now (l ∷ ls) db s =
      release_quarantined_all-Sound now ls (release_quarantined now l db) (record {
        tasks =
            TasksSound-demote formula watched _ _ (λ t. (refl, refl)) (λ t. refl) db.tasks s.tasks;
        job = s.job;
      })

  pub release_quarantined_session_leases-Sound :
      (session now : ℕ) (db : Db)
      → Sound formula upload watched db
      → Sound formula upload watched (release_quarantined_session_leases session now db)
  unfolding release_quarantined_session_leases
  release_quarantined_session_leases-Sound session now db s =
      release_quarantined_all-Sound now
        (filter (λ l. l.session_id == session && is_active l.status) db.leases) db s

  yield_lease-Sound :
      (session : ℕ) (m : YieldMessage) (now : ℕ) (o : Option LeaseRow) (db : Db)
      → Sound formula upload watched db
      → Sound formula upload watched (yield_lease session m now o db).0
  unfolding record_processed
  yield_lease-Sound session m now none db s = s
  yield_lease-Sound session m now (some l) db s = elim (Bool-cases (l.slot_id == m.slot_id)) [
    | inl e ↦ rw e (record {
      tasks = free_task-TasksSound now m.task_id m.lease_id db.tasks s.tasks;
      job = s.job;
    })
    | inr e ↦ rw e s
  ]

  pub handle_yield-Sound :
      (session : ℕ) (m : YieldMessage) (now : ℕ) (db : Db)
      → Sound formula upload watched db
      → Sound formula upload watched (handle_yield session m now db).0
  unfolding handle_yield
  handle_yield-Sound session m now db s =
      elim (Option-cases (processed_response session m.message_id db.processed)) [
        | inr (r, e) ↦ rw (e, handle_yield) s
        | inl e ↦
            rw (e, handle_yield)
              (yield_lease-Sound session m now (active_lease session m.task_id m.lease_id now db) db
                s)
      ]

  heartbeat_slot-Sound :
      (session now : ℕ) (h : HeartbeatSlot) (o : Option ℕ) (db : Db)
      → Sound formula upload watched db
      → Sound formula upload watched (heartbeat_slot session now h o db)
  heartbeat_slot-Sound session now h none db s = s
  heartbeat_slot-Sound session now h (some id) db s = record { tasks = s.tasks; job = s.job }

  heartbeat_slots-Sound :
      (session now : ℕ) (hs : List HeartbeatSlot) (db : Db)
      → Sound formula upload watched db
      → Sound formula upload watched (heartbeat_slots session now hs db)
  unfolding heartbeat_slots
  heartbeat_slots-Sound session now [] db s = s
  heartbeat_slots-Sound session now (h ∷ hs) db s =
      heartbeat_slots-Sound session now hs (heartbeat_slot session now h h.lease_id db)
        (heartbeat_slot-Sound session now h h.lease_id db s)

  pub handle_session_heartbeat-Sound :
      (session : ℕ) (m : SessionHeartbeatMessage) (now : ℕ) (db : Db)
      → Sound formula upload watched db
      → Sound formula upload watched (handle_session_heartbeat session m now db).0
  unfolding handle_session_heartbeat
  handle_session_heartbeat-Sound session m now db s =
      elim (Option-cases (processed_response session m.message_id db.processed)) [
        | inr (r, e) ↦ rw (e, handle_session_heartbeat) s
        | inl e ↦ rw (e, handle_session_heartbeat) (heartbeat_slots-Sound session now m.slots db s)
      ]

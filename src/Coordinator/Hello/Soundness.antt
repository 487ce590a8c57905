-- ===== src/Coordinator/Hello/Soundness.antt =====
-- `handleHello` and `dispatchPendingWork` of worker/job-coordinator.ts certify nothing: they keep the
-- meaning of the answers.
use hive_sat.Prelude.{
  ℕ, not, List, [], ◌∷◌, Option, none, some, ℤ, Bool, true, false, Bool-cases, inl, inr, filter,
}
use hive_sat.Coordinator.State.{TaskRow, LeaseRow, Db, Session}
use hive_sat.Coordinator.Tables.{sort_by}
use hive_sat.Coordinator.Answers.{Sound}
use hive_sat.Coordinator.Leases.{Work, lease_work_for_slot}
use hive_sat.Coordinator.Leases.Answers.{
  free_task-TasksSound, lease_work_for_slot-Sound, rollback_undelivered_lease-Sound,
}
use hive_sat.Coordinator.Split.Answers.{issue_split_permits-Sound}
use hive_sat.Coordinator.Hello.{
  HelloMessage, is_quarantined, store_profile, slot_for, claim, claim_all, is_live_of, by_issue,
  resume_leases, lease_slots, open_session, handle_hello, deliver, dispatch_slots,
  dispatch_sessions, dispatch_pending_work,
}

module _ (formula : List (List ℤ)) (upload : Type 0) (watched : List TaskRow) where
  claim-Sound :
      (now : ℕ) (l : LeaseRow) (claimed : List ℕ) (o : Option ℕ) (db : Db)
      → Sound formula upload watched db
      → Sound formula upload watched (claim now l claimed o db).1
  claim-Sound now l claimed none db s = record {
    tasks = free_task-TasksSound formula upload watched now l.task_id l.lease_id db.tasks s.tasks;
    job = s.job;
  }
  claim-Sound now l claimed (some slot) db s = record { tasks = s.tasks; job = s.job }

  claim_all-Sound :
      (now : ℕ) (slots : List ℕ) (ls : List LeaseRow) (claimed : List ℕ) (db : Db)
      → Sound formula upload watched db
      → Sound formula upload watched (claim_all now slots ls claimed db)
  unfolding claim_all
  claim_all-Sound now slots [] claimed db s = s
  claim_all-Sound now slots (l ∷ ls) claimed db s =
      let r = claim now l claimed (slot_for slots claimed l) db in
      claim_all-Sound now slots ls r.0 r.1
        (claim-Sound now l claimed (slot_for slots claimed l) db s)

  lease_slots-Sound :
      (session : ℕ) (slots ids : List ℕ) (now : ℕ) (db : Db)
      → Sound formula upload watched db
      → Sound formula upload watched (lease_slots session slots ids now db)
  unfolding lease_slots
  lease_slots-Sound session [] ids now db s = s
  lease_slots-Sound session (slot ∷ slots) [] now db s = s
  lease_slots-Sound session (slot ∷ slots) (id ∷ ids) now db s =
      lease_slots-Sound session slots ids now (lease_work_for_slot session slot id now db).0
        (lease_work_for_slot-Sound formula upload watched session slot id now db s)

  pub open_session-Sound :
      (m : HelloMessage) (ids : List ℕ) (now : ℕ) (db : Db)
      → Sound formula upload watched db
      → Sound formula upload watched (open_session m ids now db)
  unfolding open_session resume_leases store_profile
  open_session-Sound m ids now db s =
      lease_slots-Sound m.session_id m.slot_ids ids now
        (resume_leases m.session_id m.slot_ids now
          (store_profile m.session_id m.capabilities now db))
        (claim_all-Sound now m.slot_ids
          (sort_by by_issue (filter (is_live_of m.session_id now) db.leases)) []
          (store_profile m.session_id m.capabilities now db)
          (record { tasks = s.tasks; job = s.job }))

  pub handle_hello-Sound :
      (activated : Bool) (m : HelloMessage) (ids : List ℕ) (now : ℕ) (db : Db)
      → Sound formula upload watched db
      → Sound formula upload watched (handle_hello activated m ids now db).0
  unfolding handle_hello
  handle_hello-Sound activated m ids now db s =
      elim (Bool-cases (is_quarantined m.session_id db.reliability)) [
        | inl e ↦ rw e s
        | inr e ↦
            rw e
              (elim (Bool-cases (elim m.assignment_id [ none ↦ false | some a ↦ not activated ])) [
                | inl f ↦ rw f s
                | inr f ↦ rw f (open_session-Sound m ids now db s)
              ])
      ]

  deliver-Sound :
      (delivered : Bool) (now : ℕ) (r : Db × Option Work)
      → Sound formula upload watched r.0
      → Sound formula upload watched (deliver delivered now r)
  deliver-Sound delivered now (db, none) s = s
  deliver-Sound true now (db, some w) s = s
  deliver-Sound false now (db, some w) s =
      rollback_undelivered_lease-Sound formula upload watched w.lease.lease_id now db s

  dispatch_slots-Sound :
      (delivered : Bool) (session : ℕ) (slots ids : List ℕ) (now : ℕ) (db : Db)
      → Sound formula upload watched db
      → Sound formula upload watched (dispatch_slots delivered session slots ids now db)
  unfolding dispatch_slots
  dispatch_slots-Sound delivered session [] ids now db s = s
  dispatch_slots-Sound delivered session (slot ∷ slots) [] now db s = s
  dispatch_slots-Sound delivered session (slot ∷ slots) (id ∷ ids) now db s =
      dispatch_slots-Sound delivered session slots ids now
        (deliver delivered now (lease_work_for_slot session slot id now db))
        (deliver-Sound delivered now (lease_work_for_slot session slot id now db)
          (lease_work_for_slot-Sound formula upload watched session slot id now db s))

  dispatch_sessions-Sound :
      (delivered : ℕ → Bool) (work : List (Session × List ℕ)) (now : ℕ) (db : Db)
      → Sound formula upload watched db
      → Sound formula upload watched (dispatch_sessions delivered work now db)
  unfolding dispatch_sessions
  dispatch_sessions-Sound delivered [] now db s = s
  dispatch_sessions-Sound delivered ((x, ids) ∷ work) now db s =
      dispatch_sessions-Sound delivered work now
        (dispatch_slots (delivered x.session_id) x.session_id x.slot_ids ids now db)
        (dispatch_slots-Sound (delivered x.session_id) x.session_id x.slot_ids ids now db s)

  pub dispatch_pending_work-Sound :
      (delivered : ℕ → Bool) (work : List (Session × List ℕ)) (permit_ids : List ℕ) (now : ℕ)
      (sessions : List Session) (db : Db)
      → Sound formula upload watched db
      → Sound formula upload watched
          (dispatch_pending_work delivered work permit_ids now sessions db)
  unfolding dispatch_pending_work
  dispatch_pending_work-Sound delivered work permit_ids now sessions db s =
      issue_split_permits-Sound formula upload watched delivered permit_ids now sessions
        (dispatch_sessions delivered work now db) (dispatch_sessions-Sound delivered work now db s)

-- ===== src/Coordinator/Hello.antt =====
-- `handleHello` and `dispatchPendingWork` of worker/job-coordinator.ts: a session opens or resumes, and
-- free slots get work.
pub mod Answers
pub mod Soundness
use hive_sat.Prelude.{
  ℕ, Bool, true, false, not, ◌&&◌, List, [], ◌∷◌, Option, none, some, any, filter, find?, ltb, ◌==◌,
  if◌then◌else◌,
}
use hive_sat.Protocol.Capabilities.{WorkerCapabilities, calibrated_task_profile}
use hive_sat.Coordinator.State.{
  LeaseRow, LeaseStatus, SessionProfileRow, ReliabilityRow, Db, Session,
}
use hive_sat.Coordinator.Tables.{update, sort_by, is_active, task, to_cube_task}
use hive_sat.Coordinator.Leases.{
  Work, end_lease, free_task, lease_work_for_slot, rollback_undelivered_lease,
}
use hive_sat.Coordinator.Split.{issue_split_permits}

pub record HelloMessage : Type 0 where
  pub message_id : ℕ
  pub session_id : ℕ
  pub assignment_id : Option ℕ
  pub slot_ids : List ℕ
  pub capabilities : WorkerCapabilities

-- The frame that answers a HELLO: an error, after which the socket is closed, or a WELCOME.
pub data HelloAnswer : Type 0 where
  session_quarantined invalid_state : HelloAnswer
  welcome : (lease_duration_ms : ℕ) → List Work → HelloAnswer

abbrev pub is_quarantined : ℕ → List ReliabilityRow → Bool
is_quarantined session rows = elim (find? (λ r. r.session_id == session) rows) [
  | none ↦ false
  | some r ↦ r.quarantined
]

abbrev has_proof_generation : Option Bool → Bool
has_proof_generation (some true) = true
has_proof_generation _ = false

abbrev new_profile : ℕ → WorkerCapabilities → ℕ → SessionProfileRow
unfolding calibrated_task_profile
new_profile session c now = record {
  session_id = session;
  conflict_budget = (calibrated_task_profile c).conflict_budget;
  lease_duration_ms = (calibrated_task_profile c).lease_duration_ms;
  updated_at = now;
  proof_generation = has_proof_generation c.proof_generation;
}

-- INSERT ... ON CONFLICT(session_id) DO UPDATE
unfoldable pub store_profile : ℕ → WorkerCapabilities → ℕ → Db → Db
unfolding new_profile
store_profile session c now db = record db {
  profiles =
      if any (λ p. p.session_id == session) db.profiles
      then update (λ p. p.session_id == session) (λ p. new_profile session c now) db.profiles
      else new_profile session c now ∷ db.profiles;
}

-- The slot that a lease of the session goes to.
abbrev pub slot_for : List ℕ → List ℕ → LeaseRow → Option ℕ
slot_for slots claimed l =
    if any (λ s. s == l.slot_id) slots
    then some l.slot_id
    else find? (λ s. not (any (λ c. c == s) claimed)) slots

-- A lease without a slot is yielded; its permits stay as they are.
abbrev give_up : ℕ → LeaseRow → Db → Db
give_up now l db = record db {
  leases = end_lease l.lease_id LeaseStatus.yielded db.leases;
  tasks = free_task now l.task_id l.lease_id db.tasks;
}

abbrev move_lease : LeaseRow → ℕ → Db → Db
move_lease l slot db = record db {
  leases =
      if l.slot_id == slot
      then db.leases
      else update (λ r. r.lease_id == l.lease_id) (λ r. record r { slot_id = slot }) db.leases;
}

-- A round of the loop over the leases of the session: the slots that are claimed, and the database.
abbrev pub claim : ℕ → LeaseRow → List ℕ → Option ℕ → Db → List ℕ × Db
claim now l claimed none db = (claimed, give_up now l db)
claim now l claimed (some slot) db = (slot ∷ claimed, move_lease l slot db)

pub claim_all : ℕ → List ℕ → List LeaseRow → List ℕ → Db → Db
claim_all now slots [] claimed db = db
claim_all now slots (l ∷ ls) claimed db =
    let r = claim now l claimed (slot_for slots claimed l) db in claim_all now slots ls r.0 r.1

abbrev pub is_live_of : ℕ → ℕ → LeaseRow → Bool
is_live_of session now l = l.session_id == session && (is_active l.status && ltb now l.expires_at)

-- ORDER BY issued_at, lease_id
abbrev by_issue : LeaseRow → LeaseRow → Bool
by_issue a b =
    if a.issued_at == b.issued_at then ltb a.lease_id b.lease_id else ltb a.issued_at b.issued_at

-- The transaction that gives the session's leases to its slots.
unfoldable pub resume_leases : ℕ → List ℕ → ℕ → Db → Db
unfolding claim_all
resume_leases session slots now db =
    claim_all now slots (sort_by by_issue (filter (is_live_of session now) db.leases)) [] db

-- `leaseWorkForSlot` for each slot, with fresh lease ids.
pub lease_slots : ℕ → List ℕ → List ℕ → ℕ → Db → Db
lease_slots session [] ids now db = db
lease_slots session (slot ∷ slots) [] now db = db
lease_slots session (slot ∷ slots) (id ∷ ids) now db =
    lease_slots session slots ids now (lease_work_for_slot session slot id now db).0

-- The leases of the WELCOME, with their tasks.
pub active_leases : Db → List LeaseRow → List Work
active_leases db [] = []
active_leases db (l ∷ ls) =
    let rest = active_leases db ls in
    elim (task l.task_id db.tasks) [
      | none ↦ rest
      | some t ↦ record { slot_id = l.slot_id; task = to_cube_task t; lease = l } ∷ rest
    ]

abbrev welcome_works : ℕ → ℕ → Db → List Work
welcome_works session now db =
    active_leases db
      (sort_by (λ a b. ltb a.issued_at b.issued_at) (filter (is_live_of session now) db.leases))

-- The writes after the tests.
pub open_session : HelloMessage → List ℕ → ℕ → Db → Db
unfolding store_profile resume_leases lease_slots
open_session m ids now db =
    lease_slots m.session_id m.slot_ids ids now
      (resume_leases m.session_id m.slot_ids now (store_profile m.session_id m.capabilities now db))

-- `handleHello` up to its answer: `activated` is what the directory says of the assignment, where
-- the message names one.
unfoldable pub handle_hello : Bool → HelloMessage → List ℕ → ℕ → Db → Db × HelloAnswer
unfolding open_session active_leases calibrated_task_profile
handle_hello activated m ids now db =
    let refused : Bool = elim m.assignment_id [ none ↦ false | some a ↦ not activated ] in
    let opened = open_session m ids now db in
    if is_quarantined m.session_id db.reliability
    then (db, HelloAnswer.session_quarantined)
    else if refused
    then (db, HelloAnswer.invalid_state)
    else (
      opened,
      HelloAnswer.welcome (calibrated_task_profile m.capabilities).lease_duration_ms
          (welcome_works m.session_id now opened),
    )

-- A WORK frame that cannot be sent takes its lease back.
abbrev pub deliver : Bool → ℕ → Db × Option Work → Db
deliver delivered now (db, none) = db
deliver delivered now (db, some w) =
    if delivered then db else rollback_undelivered_lease w.lease.lease_id now db

pub dispatch_slots : Bool → ℕ → List ℕ → List ℕ → ℕ → Db → Db
dispatch_slots delivered session [] ids now db = db
dispatch_slots delivered session (slot ∷ slots) [] now db = db
dispatch_slots delivered session (slot ∷ slots) (id ∷ ids) now db =
    dispatch_slots delivered session slots ids now
      (deliver delivered now (lease_work_for_slot session slot id now db))

-- The loop over the sessions, each with the fresh ids for its slots.
pub dispatch_sessions : (ℕ → Bool) → List (Session × List ℕ) → ℕ → Db → Db
unfolding dispatch_slots
dispatch_sessions delivered [] now db = db
dispatch_sessions delivered ((s, ids) ∷ ss) now db =
    dispatch_sessions delivered ss now
      (dispatch_slots (delivered s.session_id) s.session_id s.slot_ids ids now db)

-- `dispatchPendingWork` over the connected sessions; `delivered` says to which sessions frames can be
-- sent.
unfoldable pub dispatch_pending_work :
    (ℕ → Bool) → List (Session × List ℕ) → List ℕ → ℕ → List Session → Db → Db
unfolding dispatch_sessions
dispatch_pending_work delivered work permit_ids now sessions db =
    issue_split_permits delivered permit_ids now sessions (dispatch_sessions delivered work now db)

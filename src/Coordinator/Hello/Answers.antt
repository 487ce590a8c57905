-- ===== src/Coordinator/Hello/Answers.antt =====
-- What the answers of `handleHello` in worker/job-coordinator.ts mean.
use mathlib.Core.List.{Mem}
use hive_sat.Prelude.Rows.{is_some}
use hive_sat.Prelude.{◌&&◌, any, ℕ, ◌≡◌, ◌<◌, ◌≢◌, Bool, true, false, List, none, some, All, ◌==◌}
use hive_sat.Protocol.Capabilities.{calibrated_task_profile, calibrated_task_profile}
use hive_sat.Coordinator.State.{LeaseRow, TaskRow, Db}
use hive_sat.Coordinator.Tables.{is_active, task, to_cube_task}
use hive_sat.Coordinator.Leases.{Work}
use hive_sat.Coordinator.Hello.{HelloMessage, HelloAnswer, is_quarantined, is_live_of}

-- A lease of the session that has not ended.
abbrev IsOwn : ℕ → ℕ → LeaseRow → Type 0
IsOwn session now l = (l.session_id ≡ session) × (is_active l.status ≡ true) × (now < l.expires_at)

-- Work of the WELCOME: a row of the leases that is the session's and has not ended, its slot, and its
-- row of the tasks.
abbrev IsResumed : ℕ → ℕ → Db → Work → Type 0
IsResumed session now db w =
    (t : TaskRow) × IsOwn session now w.lease
    × Mem w.lease db.leases
    × (task w.lease.task_id db.tasks ≡ some t)
    × (w.task ≡ to_cube_task t)
    × (w.slot_id ≡ w.lease.slot_id)

-- The rows of a lease's id whose task is there.
abbrev has_task : Db → ℕ → LeaseRow → Bool
has_task db id l = l.lease_id == id && is_some (task l.task_id db.tasks)

-- A lease of the session that has not ended, and whose task is there, is listed.
abbrev IsListed : ℕ → ℕ → Db → List Work → LeaseRow → Type 0
IsListed session now db works l =
    is_live_of session now l ≡ true
    → is_some (task l.task_id db.tasks) ≡ true
    → any (λ w. w.lease.lease_id == l.lease_id) works ≡ true

-- What an answer means.
abbrev pub IsGreeted : Bool → HelloMessage → ℕ → Db → Db × HelloAnswer → Type 0
IsGreeted activated m now db (db', HelloAnswer.session_quarantined) =
    (is_quarantined m.session_id db.reliability ≡ true) × (db' ≡ db)
IsGreeted activated m now db (db', HelloAnswer.invalid_state) =
    (m.assignment_id ≢ none) × (activated ≡ false) × (db' ≡ db)
IsGreeted activated m now db (db', HelloAnswer.welcome duration works) =
    (is_quarantined m.session_id db.reliability ≡ false)
    × All (IsResumed m.session_id now db') works
    × All (IsListed m.session_id now db' works) db'.leases

-- A row of the database that is the session's and has not ended.
abbrev IsRow : ℕ → ℕ → Db → LeaseRow → Type 0
IsRow session now db l = IsOwn session now l × Mem l db.leases

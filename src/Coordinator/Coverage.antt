-- ===== src/Coordinator/Coverage.antt =====
-- `propagateUnsatCoverage` and `closeUnsatJob` of worker/job-coordinator.ts: certified halves make
-- the split task certified, up to the root.
pub mod Answers
pub mod Rounds
use hive_sat.Prelude.{
  ℕ, zero, suc, ◌+◌, Bool, true, false, ◌&&◌, ◌||◌, not, List, [], ◌∷◌, Option, none, some, filter,
  all, any, length, ltb, ◌==◌, ℤ, neg, int_eq, if◌then◌else◌,
}
use hive_sat.Coordinator.State.{
  JobState, JobRow, TaskState, TaskRow, LeaseRow, LeaseStatus, Db, root_id,
}
use hive_sat.Coordinator.Tables.{update, sort_by, holds, is_split, is_unsat, is_active, task}

-- "UNSAT_CERTIFIED" | "UNSAT_OWNER_VERIFIED"
pub data Verdict : Type 0 where
  certified owner_verified : Verdict

abbrev pub task_verdict : Verdict → TaskState
task_verdict certified = TaskState.unsat_certified
task_verdict owner_verified = TaskState.unsat_owner_verified

abbrev pub job_verdict : Verdict → JobState
job_verdict certified = JobState.unsat_certified
job_verdict owner_verified = JobState.unsat_owner_verified

abbrev pub verdict_of : TaskState → Option Verdict
verdict_of TaskState.unsat_certified = some certified
verdict_of TaskState.unsat_owner_verified = some owner_verified
verdict_of _ = none

abbrev pub set_job_state : JobState → Option JobRow → Option JobRow
set_job_state s none = none
set_job_state s (some job) = some (record job { state = s })

abbrev pub supersede_leases : List LeaseRow → List LeaseRow
supersede_leases leases =
    update (λ l. is_active l.status) (λ l. record l { status = LeaseStatus.superseded }) leases

-- READY, LEASED, YIELDED or PROOF_PENDING.
abbrev pub is_outstanding : TaskState → Bool
is_outstanding TaskState.ready = true
is_outstanding TaskState.leased = true
is_outstanding TaskState.yielded = true
is_outstanding TaskState.proof_pending = true
is_outstanding _ = false

-- `closeUnsatJob`.
unfoldable pub close_unsat_job : Verdict → ℕ → Db → Db
close_unsat_job v now db = record db {
  job = set_job_state (job_verdict v) db.job;
  tasks =
      update (λ t. is_outstanding t.state)
        (λ t. record t { state = TaskState.cancelled; active_lease_id = none; updated_at = now })
        db.tasks;
  leases = supersede_leases db.leases;
}

-- The literal that a child's cube adds to its parent's: the prefix is intact and one literal longer.
pub branch_of : List ℤ → List ℤ → Option ℤ
branch_of [] [] = none
branch_of [] (x ∷ []) = some x
branch_of [] (x ∷ y ∷ ys) = none
branch_of (p ∷ ps) [] = none
branch_of (p ∷ ps) (x ∷ xs) = let rest = branch_of ps xs in if int_eq x p then rest else none

abbrev pub opposite : Option ℤ → Option ℤ → Bool
opposite (some l) (some r) = int_eq l (neg r)
opposite _ _ = false

-- SELECT * FROM tasks WHERE parent_task_id = ? ORDER BY task_id
abbrev pub children : ℕ → List TaskRow → List TaskRow
children id tasks =
    sort_by (λ a b. ltb a.task_id b.task_id) (filter (λ t. holds t.parent_task_id id) tasks)

abbrev pub is_owner_verified : TaskState → Bool
is_owner_verified TaskState.unsat_owner_verified = true
is_owner_verified _ = false

-- The verdict that two children give their parent, if they cover its cube.
pub joint_verdict : TaskRow → List TaskRow → Option Verdict
joint_verdict parent (l ∷ r ∷ []) =
    if is_unsat l.state
      && is_unsat r.state
      && opposite (branch_of parent.assumptions l.assumptions)
          (branch_of parent.assumptions r.assumptions)
    then some (
        if is_owner_verified l.state || is_owner_verified r.state
        then owner_verified
        else certified)
    else none
joint_verdict parent _ = none

abbrev pub certify : ℕ → Verdict → ℕ → Db → Db
certify id v now db = record db {
  tasks =
      update (λ t. t.task_id == id && is_split t.state)
        (λ t. record t { state = task_verdict v; updated_at = now }) db.tasks;
}

-- The parent of the round, if it is split and its children cover it.
abbrev pub covered : ℕ → Db → Option (TaskRow × Verdict)
covered id db = elim (task id db.tasks) [
  | none ↦ none
  | some parent ↦
      if is_split parent.state
      then elim (joint_verdict parent (children id db.tasks)) [
        | none ↦ none
        | some v ↦ some (parent, v)
      ]
      else none
]

abbrev close_root : ℕ → Db → Option Verdict → Db × Option Verdict
close_root now db none = (db, none)
close_root now db (some v) = (close_unsat_job v now db, some v)

abbrev pub root_verdict : Db → Option Verdict
root_verdict db = elim (task root_id db.tasks) [ none ↦ none | some t ↦ verdict_of t.state ]

-- The loop of `propagateUnsatCoverage`, with fuel for its rounds: `none` if the fuel runs out.
unfoldable pub propagate : ℕ → Option ℕ → ℕ → Db → Option (Db × Option Verdict)
unfolding close_unsat_job
propagate fuel none now db = some (close_root now db (root_verdict db))
propagate zero (some id) now db = none
propagate (suc fuel) (some id) now db = elim (covered id db) [
  | none ↦ some (db, none)
  | some (parent, v) ↦
      let rest = propagate fuel parent.parent_task_id now (certify id v now db) in
      if id == root_id then some (close_unsat_job v now (certify id v now db), some v) else rest
]

abbrev pub result_or : Db → Option (Db × Option Verdict) → Db × Option Verdict
result_or db none = (db, none)
result_or db (some r) = r

-- `propagateUnsatCoverage`, with fuel for one round more than there are tasks.
unfoldable pub propagate_unsat_coverage : Option ℕ → ℕ → Db → Db × Option Verdict
unfolding propagate
propagate_unsat_coverage parent now db =
    result_or db (propagate (suc (length db.tasks)) parent now db)

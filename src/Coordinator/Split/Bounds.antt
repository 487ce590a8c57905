-- ===== src/Coordinator/Split/Bounds.antt =====
-- The limit on tasks in worker/job-coordinator.ts.
use hive_sat.Prelude.{
  ℕ, ◌≡◌, ◌≤◌, ◌-◌, false, not, ◌&&◌, ◌||◌, List, ◌∷◌, Option, none, some, find?, any, length, ltb,
  leb, ltb→ge, ◌==◌, abs, neg, arith, Bool-cases, Option-cases, inl, inr,
}
use hive_sat.Coordinator.State.{
  JobRow, TaskRow, LeaseRow, SplitPermitRow, Db, SplitMessage, Session, max_tasks, max_cube_depth,
}
use hive_sat.Coordinator.Tables.{task, length-update, processed_response, record_processed}
use hive_sat.Coordinator.Leases.{active_lease}
use hive_sat.Coordinator.Split.{
  TaskState, holds, child_task, split_task, split_needed, permit_matches, split_with_permit,
  split_leased, handle_split,
}

module _ (session : ℕ) (m : SplitMessage) (positive_id negative_id now : ℕ)
    (sessions : List Session) (db : Db) (few : length db.tasks ≤ max_tasks) where
  length-split_task :
      (t : TaskRow) (l : LeaseRow) (p : SplitPermitRow)
      → ltb (max_tasks - 2) (length db.tasks) ≡ false
      → length (split_task t l p m.split_literal positive_id negative_id now db).tasks ≤ max_tasks
  unfolding split_task
  length-split_task t l p e = omega (
    arith,
    length-update (λ r. r.task_id == t.task_id && holds r.active_lease_id l.lease_id)
        (λ r. record r { state = TaskState.split; active_lease_id = none; updated_at = now })
        (child_task t positive_id m.split_literal now
          ∷ child_task t negative_id (neg m.split_literal) now
          ∷ db.tasks),
    ltb→ge (max_tasks - 2) (length db.tasks) e,
  )

  length-split_with_permit :
      (job : JobRow) (t : TaskRow) (l : LeaseRow) (p : SplitPermitRow)
      → length
          (split_with_permit session m positive_id negative_id now sessions job t l p db).0.tasks
        ≤ max_tasks
  unfolding record_processed
  length-split_with_permit job t l p = elim (Bool-cases (split_needed sessions now db)) [
    | inr e ↦ rw e few
    | inl e ↦ rw e (elim (Bool-cases (ltb (max_tasks - 2) (length db.tasks))) [
      | inl f ↦ rw f few
      | inr f ↦
          rw f
            (elim (Bool-cases (
              ltb job.variable_count (abs m.split_literal)
              || any (λ x. abs x == abs m.split_literal) t.assumptions)) [
                | inl g ↦ rw g few
                | inr g ↦ rw g (length-split_task t l p f)
              ])
    ])
  ]

  length-split_leased :
      (job : Option JobRow) (t : Option TaskRow) (l : LeaseRow)
      → length (split_leased session m positive_id negative_id now sessions job t l db).0.tasks
        ≤ max_tasks
  length-split_leased none t l = few
  length-split_leased (some job) none l = few
  length-split_leased (some job) (some t) l =
      elim (Bool-cases
        (not (l.slot_id == m.slot_id) || leb max_cube_depth t.depth || t.proof_required)) [
          | inl e ↦ rw e few
          | inr e ↦ elim (Option-cases (find? (permit_matches m session now) db.permits)) [
            | inl g ↦ rw (e, g) few
            | inr (p, g) ↦ rw (e, g) (length-split_with_permit job t l p)
          ]
        ]

  -- If a job has at most `max_tasks` tasks, then it has at most that many after any split message.
  pub length-handle_split :
      length (handle_split session m positive_id negative_id now sessions db).0.tasks ≤ max_tasks
  unfolding handle_split
  length-handle_split = elim (Option-cases (processed_response session m.message_id db.processed)) [
    | inr (r, e) ↦ rw (e, handle_split) few
    | inl e ↦ elim (Option-cases (active_lease session m.task_id m.lease_id now db)) [
      | inl f ↦ rw (e, handle_split, f) few
      | inr (l, f) ↦
          rw (e, handle_split, f) (length-split_leased db.job (task m.task_id db.tasks) l)
    ]
  ]

-- ===== src/Coordinator/Split/Answers.antt =====
-- `handleSplit` of worker/job-coordinator.ts keeps the meaning of the answers: the new tasks have
-- fresh ids and certify nothing.
use hive_sat.Prelude.{
  Bool, ℕ, ◌≡◌, ◌≢◌, refl, sym, true, false, not, ◌&&◌, ◌||◌, List, [], ◌∷◌, Option, none, some,
  find?, any, all, all-append, length, ltb, leb, ◌==◌, ℤ, abs, neg, is_zero, arith, Bool-cases,
  Option-cases, inl, inr, All, ◌-◌,
}
use hive_sat.Coordinator.State.{
  JobRow, TaskState, TaskRow, LeaseRow, SplitPermitRow, Db, SplitMessage, Session, root_id,
  max_cube_depth, max_tasks,
}
use hive_sat.Coordinator.Tables.{holds, task, processed_response, record_processed}
use hive_sat.Coordinator.Answers.{
  Sound, SameCube, TaskFacts, TasksSound, TasksSound-demote, task-All,
}
use hive_sat.Coordinator.Leases.{active_lease}
use hive_sat.Coordinator.Split.{
  expire_permits, issue_permits, issue_split_permits, child_task, split_task, split_needed,
  permit_matches, split_with_permit, split_leased, handle_split,
}

-- An id that no task has, nor a row that a handler holds, and that is not the root's.
pub record Fresh (id : ℕ) (watched ts : List TaskRow) : Type 0 where
  pub not_root : id ≢ root_id
  pub unused : All (λ t. t.task_id ≢ id) ts
  pub unwatched : All (λ t. t.task_id ≢ id) watched

module _ (formula : List (List ℤ)) (upload : Type 0) (watched : List TaskRow) where
  -- A new row with a fresh id, a cube without 0 and an open state.
  TasksSound-cons :
      (t : TaskRow) (ts : List TaskRow)
      → Fresh t.task_id watched ts
      → TaskFacts formula t
      → TasksSound formula watched ts
      → TasksSound formula watched (t ∷ ts)
  TasksSound-cons t ts f k s = ((k, s.0), (f.unused, s.1), both watched f.unwatched s.2)
    where
      both :
          (ws : List TaskRow)
          → All (λ w. w.task_id ≢ t.task_id) ws
          → All (SameCube ts) ws
          → All (SameCube (t ∷ ts)) ws
      both [] u c = tt
      both (w ∷ ws) (u, us) (c, cs) = (((λ q. absurd (u (sym q))), c), both ws us cs)

  child_task-TaskFacts :
      (t : TaskRow) (id : ℕ) (x : ℤ) (now : ℕ)
      → id ≢ root_id
      → is_zero x ≡ false
      → all (λ l. not (is_zero l)) t.assumptions ≡ true
      → TaskFacts formula (child_task t id x now)
  child_task-TaskFacts t id x now r z n = record {
    refuted = λ q. absurd (cc);
    root_cube = λ q. absurd (r q);
    nonzero = ground (arith, all-append (λ l. not (is_zero l)) t.assumptions (x ∷ []));
  }

  split_task-Sound :
      (t : TaskRow) (l : LeaseRow) (p : SplitPermitRow) (x : ℤ) (positive_id negative_id now : ℕ)
      (db : Db)
      → is_zero x ≡ false
      → Fresh positive_id watched db.tasks
      → Fresh negative_id watched db.tasks
      → positive_id ≢ negative_id
      → all (λ l. not (is_zero l)) t.assumptions ≡ true
      → Sound formula upload watched db
      → Sound formula upload watched (split_task t l p x positive_id negative_id now db)
  unfolding split_task
  split_task-Sound t l p x positive_id negative_id now db z fp fn ne n s = record {
    tasks =
        TasksSound-demote formula watched
          (λ r. r.task_id == t.task_id && holds r.active_lease_id l.lease_id)
          (λ r. record r { state = TaskState.split; active_lease_id = none; updated_at = now })
          (λ r. (refl, refl)) (λ r. refl)
          (child_task t positive_id x now ∷ child_task t negative_id (neg x) now ∷ db.tasks)
          (TasksSound-cons (child_task t positive_id x now)
            (child_task t negative_id (neg x) now ∷ db.tasks)
            (record {
              not_root = fp.not_root;
              unused = ((λ q. ne (sym q)), fp.unused);
              unwatched = fp.unwatched;
            })
            (child_task-TaskFacts t positive_id x now fp.not_root z n)
            (TasksSound-cons (child_task t negative_id (neg x) now) db.tasks fn
              (child_task-TaskFacts t negative_id (neg x) now fn.not_root (neg-nonzero x z) n)
              s.tasks));
    job = s.job;
  }
    where
      neg-nonzero : (y : ℤ) → is_zero y ≡ false → is_zero (neg y) ≡ false
      neg-nonzero y h = ground arith

  module _ (session : ℕ) (m : SplitMessage) (positive_id negative_id now : ℕ)
      (sessions : List Session) (db : Db) (nonzero : is_zero m.split_literal ≡ false)
      (fresh_positive : Fresh positive_id watched db.tasks)
      (fresh_negative : Fresh negative_id watched db.tasks) (different : positive_id ≢ negative_id)
      (s : Sound formula upload watched db) where
    split_with_permit-Sound :
        (job : JobRow) (t : TaskRow) (l : LeaseRow) (p : SplitPermitRow)
        → all (λ x. not (is_zero x)) t.assumptions ≡ true
        → Sound formula upload watched
            (split_with_permit session m positive_id negative_id now sessions job t l p db).0
    unfolding record_processed
    split_with_permit-Sound job t l p n = elim (Bool-cases (split_needed sessions now db)) [
      | inr e ↦ rw e (record { tasks = s.tasks; job = s.job })
      | inl e ↦ rw e (elim (Bool-cases (ltb (max_tasks - 2) (length db.tasks))) [
        | inl f ↦ rw f (record { tasks = s.tasks; job = s.job })
        | inr f ↦
            rw f
              (elim (Bool-cases (
                ltb job.variable_count (abs m.split_literal)
                || any (λ x. abs x == abs m.split_literal) t.assumptions)) [
                  | inl g ↦ rw g s
                  | inr g ↦ rw g (
                      let s' =
                        split_task-Sound t l p m.split_literal positive_id negative_id now db
                          nonzero fresh_positive fresh_negative different n s in
                      record { tasks = s'.tasks; job = s'.job })
                ])
      ])
    ]

    split_leased-Sound :
        (job : Option JobRow) (t : Option TaskRow) (l : LeaseRow)
        → task m.task_id db.tasks ≡ t
        → Sound formula upload watched
            (split_leased session m positive_id negative_id now sessions job t l db).0
    split_leased-Sound none t l f = s
    split_leased-Sound (some job) none l f = s
    split_leased-Sound (some job) (some t) l f =
        elim (Bool-cases
          (not (l.slot_id == m.slot_id) || leb max_cube_depth t.depth || t.proof_required)) [
            | inl e ↦ rw e s
            | inr e ↦ elim (Option-cases (find? (permit_matches m session now) db.permits)) [
              | inl g ↦ rw (e, g) s
              | inr (p, g) ↦
                  rw (e, g)
                    (split_with_permit-Sound job t l p
                      ((task-All (TaskFacts formula) m.task_id db.tasks t s.tasks.0 f).0).nonzero)
            ]
          ]

    pub handle_split-Sound :
        Sound formula upload watched
          (handle_split session m positive_id negative_id now sessions db).0
    unfolding handle_split
    handle_split-Sound =
        elim (Option-cases (processed_response session m.message_id db.processed)) [
          | inr (r, e) ↦ rw (e, handle_split) s
          | inl e ↦ elim (Option-cases (active_lease session m.task_id m.lease_id now db)) [
            | inl f ↦ rw (e, handle_split, f) s
            | inr (l, f) ↦
                rw (e, handle_split, f) (split_leased-Sound db.job (task m.task_id db.tasks) l refl)
          ]
        ]

  -- `issueSplitPermits` writes only permits.
  issue_permits-Sound :
      (delivered : ℕ → Bool) (remaining now : ℕ) (sessions : List Session) (ls : List LeaseRow)
      (ids : List ℕ) (db : Db)
      → Sound formula upload watched db
      → Sound formula upload watched (issue_permits delivered remaining now sessions ls ids db)
  unfolding issue_permits
  issue_permits-Sound delivered remaining now sessions [] ids db s = s
  issue_permits-Sound delivered remaining now sessions (l ∷ ls) [] db s = s
  issue_permits-Sound delivered remaining now sessions (l ∷ ls) (id ∷ ids) db s =
      elim (Bool-cases (remaining == 0)) [
        | inl e ↦ rw e s
        | inr e ↦ rw e (elim (Bool-cases (any (λ r. r.session_id == l.session_id) sessions)) [
          | inr f ↦ rw f (issue_permits-Sound delivered remaining now sessions ls (id ∷ ids) db s)
          | inl f ↦ rw f (elim (Bool-cases (delivered l.session_id)) [
            | inl g ↦ rw g (
                issue_permits-Sound delivered (remaining - 1) now sessions ls ids _
                  (record { tasks = s.tasks; job = s.job }))
            | inr g ↦ rw g (
                issue_permits-Sound delivered remaining now sessions ls ids _
                  (record { tasks = s.tasks; job = s.job }))
          ])
        ])
      ]

  pub issue_split_permits-Sound :
      (delivered : ℕ → Bool) (ids : List ℕ) (now : ℕ) (sessions : List Session) (db : Db)
      → Sound formula upload watched db
      → Sound formula upload watched (issue_split_permits delivered ids now sessions db)
  unfolding issue_split_permits
  issue_split_permits-Sound delivered ids now sessions db s =
      issue_permits-Sound delivered _ now sessions _ ids (expire_permits now db)
        (record { tasks = s.tasks; job = s.job })

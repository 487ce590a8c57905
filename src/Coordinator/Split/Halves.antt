-- ===== src/Coordinator/Split/Halves.antt =====
-- What the two halves of a split in worker/job-coordinator.ts cover.
use hive_sat.Cnf.{Valuation, lit_true, lit_true-neg, cube_true}
use hive_sat.Coordinator.State.{Response, ack, Action, Session}
use hive_sat.Prelude.{
  ◌∙◌, is_zero, neg, all-append, ◌||◌, ◌≢◌, ==_iff, refl, ℕ, ◌≡◌, refl, ◌-◌, Bool, true, false, not,
  ◌&&◌, ◌||◌, List, [], ◌∷◌, Option, none, some, find?, any, all-append, length, ltb, leb, ◌==◌, ℤ,
  abs, neg, is_zero, arith, Bool-cases, Option-cases, inl, inr,
}
use hive_sat.Cnf.{Valuation, lit_true, lit_true-neg, cube_true}
use hive_sat.Coordinator.State.{
  JobRow, TaskRow, LeaseRow, SplitPermitRow, Db, SplitMessage, Session, max_tasks, max_cube_depth,
}
use hive_sat.Coordinator.Tables.{task, processed_response, record_processed}
use hive_sat.Coordinator.Leases.{active_lease}
use hive_sat.Coordinator.Split.{
  child_task, split_task, split_needed, permit_matches, split_with_permit, split_leased,
  handle_split,
}

-- A literal that is not 0 and its negation divide a cube.
child_task-covers :
    (v : Valuation) (t : TaskRow) (x : ℤ) (positive_id negative_id now : ℕ)
    → is_zero x ≡ false
    → (cube_true v t.assumptions ≡ (
        cube_true v (child_task t positive_id x now).assumptions
        || cube_true v (child_task t negative_id (neg x) now).assumptions))
      × ((cube_true v (child_task t positive_id x now).assumptions
            && cube_true v (child_task t negative_id (neg x) now).assumptions)
          ≡ false)
child_task-covers v t x positive_id negative_id now z =
    rw
      (
        all-append (lit_true v) t.assumptions (x ∷ []),
        all-append (lit_true v) t.assumptions (neg x ∷ []),
        lit_true-neg v x z,
      )
      (either (cube_true v t.assumptions) (lit_true v x))
  where
    either :
        (c l : Bool)
        → (c ≡ ((c && (l && true)) || (c && (not l && true))))
          × (((c && (l && true)) && (c && (not l && true))) ≡ false)
    either true true = (refl, refl)
    either true false = (refl, refl)
    either false l = (refl, refl)

-- Two rows divide the cube of a third: a valuation that makes it true makes the cube of exactly one of
-- them true, and one that makes the cube of one of them true makes it true.
abbrev pub Divide : TaskRow → TaskRow → TaskRow → Type 0
Divide t a b =
    (v : Valuation)
    → (cube_true v t.assumptions ≡ (cube_true v a.assumptions || cube_true v b.assumptions))
      × ((cube_true v a.assumptions && cube_true v b.assumptions) ≡ false)

-- The rows with the two ids are halves of the row with the first one.
abbrev pub IsHalved : ℕ → ℕ → ℕ → List TaskRow → List TaskRow → Type 0
IsHalved id positive_id negative_id before after =
    (t a b : TaskRow) × (task id before ≡ some t)
    × (task positive_id after ≡ some a)
    × (task negative_id after ≡ some b)
    × (a.parent_task_id ≡ some t.task_id)
    × (b.parent_task_id ≡ some t.task_id)
    × Divide t a b

module _ (session : ℕ) (m : SplitMessage) (positive_id negative_id now : ℕ)
    (sessions : List Session) (db : Db) (nonzero : is_zero m.split_literal ≡ false)
    (different : positive_id ≢ negative_id) where
  -- What an acknowledgement of the split goes with.
  abbrev Halves : Db × Response → Type 0
  Halves r =
      r.1 ≡ ack m.message_id now Action.split none
      → IsHalved m.task_id positive_id negative_id db.tasks r.0.tasks

  task_here :
      (t : TaskRow) (id : ℕ) (ts : List TaskRow) → t.task_id ≡ id → task id (t ∷ ts) ≡ some t
  unfolding task
  task_here t id ts e = rw ((==_iff t.task_id id).1 e) refl

  task_past :
      (t : TaskRow) (id : ℕ) (ts : List TaskRow) → t.task_id ≢ id → task id (t ∷ ts) ≡ task id ts
  unfolding task
  task_past t id ts n = elim (Bool-cases (t.task_id == id)) [
    | inl e ↦ absurd (n ((==_iff t.task_id id).0 e))
    | inr e ↦ rw e refl
  ]

  split_task-IsHalved :
      (t : TaskRow) (l : LeaseRow) (p : SplitPermitRow)
      → task m.task_id db.tasks ≡ some t
      → IsHalved m.task_id positive_id negative_id db.tasks
          (split_task t l p m.split_literal positive_id negative_id now db).tasks
  unfolding split_task
  split_task-IsHalved t l p f =
      let a = child_task t positive_id m.split_literal now in
      let b = child_task t negative_id (neg m.split_literal) now in
      let q : (id : ℕ) → (id == t.task_id && false) ≡ false = λ id. ground arith in
      (
        t,
        a,
        b,
        f,
        rw (q positive_id) (task_here a positive_id _ refl),
        rw (q positive_id, q negative_id)
            (task_past a negative_id _ different ∙ task_here b negative_id _ refl),
        refl,
        refl,
        λ v. child_task-covers v t m.split_literal positive_id negative_id now nonzero,
      )

  split_with_permit-Halves :
      (job : JobRow) (t : TaskRow) (l : LeaseRow) (p : SplitPermitRow)
      → task m.task_id db.tasks ≡ some t
      → Halves (split_with_permit session m positive_id negative_id now sessions job t l p db)
  unfolding record_processed
  split_with_permit-Halves job t l p found = elim (Bool-cases (split_needed sessions now db)) [
    | inr e ↦ rw e (λ h. absurd (cc))
    | inl e ↦ rw e (elim (Bool-cases (ltb (max_tasks - 2) (length db.tasks))) [
      | inl f ↦ rw f (λ h. absurd (cc))
      | inr f ↦
          rw f
            (elim (Bool-cases (
              ltb job.variable_count (abs m.split_literal)
              || any (λ x. abs x == abs m.split_literal) t.assumptions)) [
                | inl g ↦ rw g (λ h. absurd (cc))
                | inr g ↦ rw g (λ h. split_task-IsHalved t l p found)
              ])
    ])
  ]

  split_leased-Halves :
      (job : Option JobRow) (t : Option TaskRow) (l : LeaseRow)
      → task m.task_id db.tasks ≡ t
      → Halves (split_leased session m positive_id negative_id now sessions job t l db)
  split_leased-Halves none t l found = λ h. absurd (cc)
  split_leased-Halves (some job) none l found = λ h. absurd (cc)
  split_leased-Halves (some job) (some t) l found =
      elim (Bool-cases
        (not (l.slot_id == m.slot_id) || leb max_cube_depth t.depth || t.proof_required)) [
          | inl e ↦ rw e (λ h. absurd (cc))
          | inr e ↦ elim (Option-cases (find? (permit_matches m session now) db.permits)) [
            | inl g ↦ rw (e, g) (λ h. absurd (cc))
            | inr (p, g) ↦ rw (e, g) (split_with_permit-Halves job t l p found)
          ]
        ]

  -- If a split message that was not processed before is acknowledged, its literal is not 0 and the two
  -- random ids differ, then the rows with these ids are children of the task that the message names, and
  -- their cubes divide its cube: a valuation that makes the task's cube true makes exactly one of
  -- theirs true, and one that makes one of theirs true makes the task's true.
  pub handle_split-IsHalved :
      processed_response session m.message_id db.processed ≡ none
      → (handle_split session m positive_id negative_id now sessions db).1
        ≡ ack m.message_id now Action.split none
      → IsHalved m.task_id positive_id negative_id db.tasks
          (handle_split session m positive_id negative_id now sessions db).0.tasks
  unfolding handle_split
  handle_split-IsHalved e = elim (Option-cases (active_lease session m.task_id m.lease_id now db)) [
    | inl f ↦ rw (e, handle_split, f) (λ h. absurd (cc))
    | inr (l, f) ↦
        rw (e, handle_split, f) (split_leased-Halves db.job (task m.task_id db.tasks) l refl)
  ]

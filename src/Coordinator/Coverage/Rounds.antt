-- ===== src/Coordinator/Coverage/Rounds.antt =====
-- The loop of `propagateUnsatCoverage` in worker/job-coordinator.ts ends: each round takes a task out
-- of SPLIT.
use hive_sat.Prelude.{
  ℕ, zero, suc, ◌≡◌, refl, ap, ◌∙◌, ◌≤◌, ◌<◌, true, false, ◌&&◌, List, [], ◌∷◌, Option, none, some,
  length, ◌==◌, if◌then◌else◌, arith, Bool-cases, Option-cases, inl, inr,
}
use hive_sat.Coordinator.State.{TaskRow, Db, root_id}
use hive_sat.Coordinator.Tables.{update, count, is_split, task}
use hive_sat.Coordinator.Coverage.{
  Verdict, certified, owner_verified, task_verdict, certify, covered, joint_verdict, children,
  propagate, result_or, propagate_unsat_coverage,
}

-- The rounds that the loop can still make.
abbrev splits : List TaskRow → ℕ
splits ts = count (λ t. is_split t.state) ts

splits-length : (ts : List TaskRow) → splits ts ≤ length ts
splits-length [] = omega arith
splits-length (t ∷ ts) = elim (Bool-cases (is_split t.state)) [
  | inl e ↦ simp e (omega (arith, splits-length ts))
  | inr e ↦ simp e (omega (arith, splits-length ts))
]

abbrev certify_tasks : ℕ → Verdict → ℕ → List TaskRow → List TaskRow
certify_tasks id v now ts =
    update (λ t. t.task_id == id && is_split t.state)
      (λ t. record t { state = task_verdict v; updated_at = now }) ts

verdict_unsplit : (v : Verdict) → is_split (task_verdict v) ≡ false
verdict_unsplit certified = refl
verdict_unsplit owner_verified = refl

splits-certify_tasks :
    (id : ℕ) (v : Verdict) (now : ℕ) (ts : List TaskRow)
    → splits (certify_tasks id v now ts) ≤ splits ts
splits-certify_tasks id v now [] = omega arith
splits-certify_tasks id v now (t ∷ ts) = elim (Bool-cases (is_split t.state)) [
  | inr b ↦ simp b (elim (Bool-cases (t.task_id == id)) [
    | inl a ↦ simp (a, b) (splits-certify_tasks id v now ts)
    | inr a ↦ simp (a, b) (splits-certify_tasks id v now ts)
  ])
  | inl b ↦ elim (Bool-cases (t.task_id == id)) [
    | inl a ↦ simp (a, b, verdict_unsplit v) (omega (arith, splits-certify_tasks id v now ts))
    | inr a ↦ simp (a, b) (omega (arith, splits-certify_tasks id v now ts))
  ]
]

splits-certify_found :
    (id : ℕ) (v : Verdict) (now : ℕ) (ts : List TaskRow) (t : TaskRow)
    → task id ts ≡ some t
    → is_split t.state ≡ true
    → splits (certify_tasks id v now ts) < splits ts
unfolding task
splits-certify_found id v now [] t e s = absurd (cc)
splits-certify_found id v now (u ∷ ts) t e s = elim (Bool-cases (u.task_id == id)) [
  | inr a ↦ elim (Bool-cases (is_split u.state)) [
    | inl b ↦ simp (a, b) (omega (arith, splits-certify_found id v now ts t (ground arith) s))
    | inr b ↦ simp (a, b) (splits-certify_found id v now ts t (ground arith) s)
  ]
  | inl a ↦
      let found : u ≡ t = ground arith in
      let b : is_split u.state ≡ true = ap (λ r. is_split r.state) found ∙ s in
      simp (a, b, verdict_unsplit v) (omega (arith, splits-certify_tasks id v now ts))
]

abbrev Covered : ℕ → Db → Option (TaskRow × Verdict) → Type 0
Covered id db none = Unit
Covered id db (some (parent, v)) = (task id db.tasks ≡ some parent) × (is_split parent.state ≡ true)

covered-Covered : (id : ℕ) (db : Db) → Covered id db (covered id db)
covered-Covered id db = found (task id db.tasks) refl
  where
    found :
        (o : Option TaskRow)
        → task id db.tasks ≡ o
        → Covered id db (elim o [
          | none ↦ none
          | some parent ↦
              if is_split parent.state
              then elim (joint_verdict parent (children id db.tasks)) [
                | none ↦ none
                | some v ↦ some (parent, v)
              ]
              else none
        ])
    found none e = tt
    found (some parent) e = elim (Bool-cases (is_split parent.state)) [
      | inr b ↦ simp b tt
      | inl b ↦ elim (Option-cases (joint_verdict parent (children id db.tasks))) [
        | inl c ↦ simp (b, c) tt
        | inr (v, c) ↦ simp (b, c) (e, refl)
      ]
    ]

-- Two fuels that are both larger than the number of split tasks give the same result.
propagate-independent :
    (a b : ℕ) (parent : Option ℕ) (now : ℕ) (db : Db)
    → splits db.tasks < a
    → splits db.tasks < b
    → propagate a parent now db ≡ propagate b parent now db
unfolding propagate
propagate-independent zero b parent now db h k = absurd (omega (arith, h))
propagate-independent (suc a) zero parent now db h k = absurd (omega (arith, k))
propagate-independent (suc a) (suc b) none now db h k = refl
propagate-independent (suc a) (suc b) (some id) now db h k =
    round (covered id db) refl (covered-Covered id db) (λ p v l.
      propagate-independent a b p now (certify id v now db) (omega (arith, l, h))
        (omega (arith, l, k)))
  where
    round :
        (o : Option (TaskRow × Verdict))
        → covered id db ≡ o
        → Covered id db o
        → ((p : Option ℕ) (v : Verdict)
            → splits (certify id v now db).tasks < splits db.tasks
            → propagate a p now (certify id v now db) ≡ propagate b p now (certify id v now db))
        → propagate (suc a) (some id) now db ≡ propagate (suc b) (some id) now db
    round none e c ih = rw (propagate, e) refl
    round (some (parent, v)) e (t, s) ih = elim (Bool-cases (id == root_id)) [
      | inl r ↦ rw (propagate, e, r) refl
      | inr r ↦
          rw (propagate, e, r)
            (ih parent.parent_task_id v (splits-certify_found id v now db.tasks parent t s))
    ]

abbrev Returned : (Option (Db × Option Verdict)) → Type 0
Returned none = ⊥
Returned (some r) = Unit {0}

-- With more fuel than split tasks, the loop returns.
propagate-Returned :
    (fuel : ℕ) (parent : Option ℕ) (now : ℕ) (db : Db)
    → splits db.tasks < fuel
    → Returned (propagate fuel parent now db)
unfolding propagate
propagate-Returned zero parent now db h = absurd (omega (arith, h))
propagate-Returned (suc fuel) none now db h = tt
propagate-Returned (suc fuel) (some id) now db h =
    round (covered id db) refl (covered-Covered id db)
      (λ p v l. propagate-Returned fuel p now (certify id v now db) (omega (arith, l, h)))
  where
    round :
        (o : Option (TaskRow × Verdict))
        → covered id db ≡ o
        → Covered id db o
        → ((p : Option ℕ) (v : Verdict)
            → splits (certify id v now db).tasks < splits db.tasks
            → Returned (propagate fuel p now (certify id v now db)))
        → Returned (propagate (suc fuel) (some id) now db)
    round none e c ih = rw (propagate, e) tt
    round (some (parent, v)) e (t, s) ih = elim (Bool-cases (id == root_id)) [
      | inl r ↦ rw (propagate, e, r) tt
      | inr r ↦
          rw (propagate, e, r)
            (ih parent.parent_task_id v (splits-certify_found id v now db.tasks parent t s))
    ]

-- The loop ends, whatever the tasks and their parents are: with any fuel for more rounds than there
-- are tasks it returns, and it returns what `propagate_unsat_coverage` gives.
pub propagate-Ends :
    (fuel : ℕ) (parent : Option ℕ) (now : ℕ) (db : Db)
    → length db.tasks < fuel
    → propagate fuel parent now db ≡ some (propagate_unsat_coverage parent now db)
unfolding propagate_unsat_coverage
propagate-Ends fuel parent now db h =
    propagate-independent fuel (suc (length db.tasks)) parent now db
      (omega (arith, splits-length db.tasks, h)) (omega (arith, splits-length db.tasks))
    ∙ returned (propagate (suc (length db.tasks)) parent now db) (
        propagate-Returned (suc (length db.tasks)) parent now db
          (omega (arith, splits-length db.tasks)))
  where
    returned : (o : Option (Db × Option Verdict)) → Returned o → o ≡ some (result_or db o)
    returned none k = absurd k
    returned (some r) k = refl

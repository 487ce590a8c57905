-- ===== src/Coordinator/Coverage/Answers.antt =====
-- Certified coverage means what it says: if both halves of a split cube are refuted, so is the cube,
-- and what `propagateUnsatCoverage` of worker/job-coordinator.ts certifies is refuted.
use hive_sat.Prelude.{
  ℕ, zero, suc, ◌≡◌, refl, sym, subst, ◌∙◌, ap, true, false, not, ◌&&◌, List, [], ◌∷◌, ◌++◌, Option,
  none, some, all, ltb, ◌==◌, ==_iff, ℤ, neg, is_zero, int_eq, int_eq→eq, arith, Bool-cases,
  Option-cases, inl, inr, All, All-map, All-filter, &&-true, all-append, length,
}
use hive_sat.Cnf.{lit_true, lit_true-neg, formula_true, cube_true, Unsat, UnsatUnder}
use hive_sat.Coordinator.State.{JobRow, TaskRow, Db, root_id}
use hive_sat.Coordinator.Tables.{All-sort_by, holds, is_split, is_unsat, task}
use hive_sat.Coordinator.Answers.{
  Sound, TaskFacts, JobSound, TasksSound-demote, TasksSound-update, task_unique, task-All,
}
use hive_sat.Coordinator.Coverage.{
  result_or, Verdict, certified, owner_verified, job_verdict, set_job_state, close_unsat_job,
  branch_of, opposite, children, joint_verdict, certify, covered, close_root, root_verdict,
  propagate, propagate_unsat_coverage,
}

-- A child's cube is its parent's with the branch literal at the end.
branch_of-append : (p c : List ℤ) (x : ℤ) → branch_of p c ≡ some x → c ≡ p ++ x ∷ []
unfolding branch_of
branch_of-append [] [] x e = absurd (cc)
branch_of-append [] (y ∷ []) x e = ground arith
branch_of-append [] (y ∷ z ∷ ys) x e = absurd (cc)
branch_of-append (q ∷ p) [] x e = absurd (cc)
branch_of-append (q ∷ p) (y ∷ ys) x e = elim (Bool-cases (int_eq y q)) [
  | inl h ↦ ground (arith, int_eq→eq y q h, branch_of-append p ys x)
  | inr h ↦ absurd (ground arith)
]

-- Resolution on the branch literal.
resolve :
    (formula : List (List ℤ)) (p : List ℤ) (x : ℤ)
    → is_zero x ≡ false
    → UnsatUnder formula (p ++ x ∷ [])
    → UnsatUnder formula (p ++ neg x ∷ [])
    → UnsatUnder formula p
resolve formula p x z h k v = ground (
  arith,
  h v,
  k v,
  all-append (lit_true v) p (x ∷ []),
  all-append (lit_true v) p (neg x ∷ []),
  lit_true-neg v x z,
)

opposite-eq : (a b : Option ℤ) → opposite a b ≡ true → (x : ℤ) × (a ≡ some (neg x)) × (b ≡ some x)
opposite-eq none b e = absurd (cc)
opposite-eq (some l) none e = absurd (cc)
opposite-eq (some l) (some r) e = (r, ap some (int_eq→eq l (neg r) e), refl)

nonzero-last :
    (p : List ℤ) (x : ℤ) → all (λ l. not (is_zero l)) (p ++ x ∷ []) ≡ true → is_zero x ≡ false
nonzero-last p x h = ground (arith, all-append (λ l. not (is_zero l)) p (x ∷ []))

-- Two certified children that cover a task refute its cube.
joint_verdict-UnsatUnder :
    (formula : List (List ℤ)) (parent : TaskRow) (cs : List TaskRow) (v : Verdict)
    → All (TaskFacts formula) cs
    → joint_verdict parent cs ≡ some v
    → UnsatUnder formula parent.assumptions
unfolding joint_verdict
joint_verdict-UnsatUnder formula parent [] v a e = absurd (cc)
joint_verdict-UnsatUnder formula parent (l ∷ []) v a e = absurd (cc)
joint_verdict-UnsatUnder formula parent (l ∷ r ∷ t ∷ ts) v a e = absurd (cc)
joint_verdict-UnsatUnder formula parent (l ∷ r ∷ []) v (lf, (rf, _)) e =
    let (lu, ru, (x, le, re)) = tests in
    resolve formula parent.assumptions x
      (nonzero-last parent.assumptions x (
        subst (λ c. all (λ y. not (is_zero y)) c ≡ true)
          (branch_of-append parent.assumptions r.assumptions x re) rf.nonzero))
      (subst (UnsatUnder formula) (branch_of-append parent.assumptions r.assumptions x re)
        (rf.refuted ru))
      (subst (UnsatUnder formula) (branch_of-append parent.assumptions l.assumptions (neg x) le)
        (lf.refuted lu))
  where
    tests :
        (is_unsat l.state ≡ true)
        × (is_unsat r.state ≡ true)
        × ((x : ℤ) × (branch_of parent.assumptions l.assumptions ≡ some (neg x))
            × (branch_of parent.assumptions r.assumptions ≡ some x))
    tests = (ground arith, ground arith, opposite-eq _ _ (ground arith))

root_refuted :
    (formula : List (List ℤ)) (c : List ℤ) → c ≡ [] → UnsatUnder formula c → Unsat formula
root_refuted formula c e u v =
    let h : (formula_true v formula && cube_true v []) ≡ false = subst (UnsatUnder formula) e u v in
    ground arith

module _ (formula : List (List ℤ)) (upload : Type 0) (watched : List TaskRow) where
  close_unsat_job-Sound :
      (v : Verdict) (now : ℕ) (db : Db)
      → Unsat formula
      → Sound formula upload watched db
      → Sound formula upload watched (close_unsat_job v now db)
  unfolding close_unsat_job
  close_unsat_job-Sound v now db u s = record {
    tasks = TasksSound-demote formula watched _ _ (λ t. (refl, refl)) (λ t. refl) db.tasks s.tasks;
    job = close v db.job;
  }
    where
      close :
          (w : Verdict) (j : Option JobRow)
          → JobSound formula upload (set_job_state (job_verdict w) j)
      close w none = tt
      close certified (some j) = record {
        unsat = λ q. u;
        sat = λ q. absurd (cc);
        uploading = λ q. absurd (cc);
      }
      close owner_verified (some j) = record {
        unsat = λ q. u;
        sat = λ q. absurd (cc);
        uploading = λ q. absurd (cc);
      }

  children-TaskFacts :
      (id : ℕ) (ts : List TaskRow)
      → All (TaskFacts formula) ts
      → All (TaskFacts formula) (children id ts)
  children-TaskFacts id ts a =
      All-sort_by (TaskFacts formula) (λ x y. ltb x.task_id y.task_id) _
        (All-filter (TaskFacts formula) (λ t. holds t.parent_task_id id) ts a)

  -- What a covered round gives: the parent is the task, and its cube is refuted.
  abbrev CoveredFacts : ℕ → Db → Option (TaskRow × Verdict) → Type 0
  CoveredFacts id db none = Unit {0}
  CoveredFacts id db (some (parent, v)) =
      (task id db.tasks ≡ some parent) × UnsatUnder formula parent.assumptions

  covered-Facts :
      (id : ℕ) (db : Db) → Sound formula upload watched db → CoveredFacts id db (covered id db)
  covered-Facts id db s = elim (Option-cases (task id db.tasks)) [
    | inl e ↦ rw (e, covered) tt
    | inr (parent, e) ↦ elim (Bool-cases (is_split parent.state)) [
      | inr k ↦ rw (e, covered, k) tt
      | inl k ↦ elim (Option-cases (joint_verdict parent (children id db.tasks))) [
        | inl j ↦ rw (e, covered, k, j) tt
        | inr (v, j) ↦
            rw (e, covered, k, j)
              (
                e,
                joint_verdict-UnsatUnder formula parent _ v
                    (children-TaskFacts id db.tasks s.tasks.0) j,
              )
      ]
    ]
  ]

  certify-Sound :
      (id : ℕ) (parent : TaskRow) (v : Verdict) (now : ℕ) (db : Db)
      → task id db.tasks ≡ some parent
      → UnsatUnder formula parent.assumptions
      → Sound formula upload watched db
      → Sound formula upload watched (certify id v now db)
  certify-Sound id parent v now db e u s = record {
    tasks =
        TasksSound-update formula watched _ _ (λ t. (refl, refl)) db.tasks
          (All-map
            (λ t same h q.
              subst (λ r. UnsatUnder formula r.assumptions)
                (sym (same ((==_iff t.task_id id).0 (&&-true _ _ h).0))) u)
            db.tasks (task_unique id db.tasks parent s.tasks.1 e))
          s.tasks;
    job = s.job;
  }

  root_verdict-Unsat :
      (db : Db) (v : Verdict)
      → Sound formula upload watched db
      → root_verdict db ≡ some v
      → Unsat formula
  root_verdict-Unsat db v s e = elim (Option-cases (task root_id db.tasks)) [
    | inl n ↦ absurd (ground arith)
    | inr (t, f) ↦
        let (facts, id) = task-All (TaskFacts formula) root_id db.tasks t s.tasks.0 f in
        root_refuted formula t.assumptions (facts.root_cube id) (facts.refuted (ground arith))
  ]

  close_root-Sound :
      (now : ℕ) (db : Db) (o : Option Verdict)
      → ((v : Verdict) → o ≡ some v → Unsat formula)
      → Sound formula upload watched db
      → Sound formula upload watched (close_root now db o).0
  close_root-Sound now db none u s = s
  close_root-Sound now db (some v) u s = close_unsat_job-Sound v now db (u v refl) s

  abbrev RoundSound : Option (Db × Option Verdict) → Type 0
  RoundSound none = Unit {0}
  RoundSound (some r) = Sound formula upload watched r.0

  propagate-Sound :
      (fuel : ℕ) (id : Option ℕ) (now : ℕ) (db : Db)
      → Sound formula upload watched db
      → RoundSound (propagate fuel id now db)
  unfolding propagate
  propagate-Sound zero none now db s =
      close_root-Sound now db (root_verdict db) (λ v e. root_verdict-Unsat db v s e) s
  propagate-Sound (suc fuel) none now db s =
      close_root-Sound now db (root_verdict db) (λ v e. root_verdict-Unsat db v s e) s
  propagate-Sound zero (some id) now db s = tt
  propagate-Sound (suc fuel) (some id) now db s =
      after (covered id db) refl (covered-Facts id db s)
        (λ p v s'. propagate-Sound fuel p now (certify id v now db) s')
    where
      after :
          (o : Option (TaskRow × Verdict))
          → covered id db ≡ o
          → CoveredFacts id db o
          → ((p : Option ℕ) (v : Verdict)
              → Sound formula upload watched (certify id v now db)
              → RoundSound (propagate fuel p now (certify id v now db)))
          → RoundSound (propagate (suc fuel) (some id) now db)
      after none e c ih = rw (e, propagate) s
      after (some (parent, v)) e (t, u) ih =
          let s' = certify-Sound id parent v now db t u s in
          elim (Bool-cases (id == root_id)) [
            | inl r ↦
                rw (e, propagate, r)
                  (close_unsat_job-Sound v now (certify id v now db)
                    (let (facts, same) =
                        task-All (TaskFacts formula) id db.tasks parent s.tasks.0 t in
                      root_refuted formula parent.assumptions
                        (facts.root_cube (same ∙ (==_iff id root_id).0 r)) u)
                    s')
            | inr r ↦ rw (e, propagate, r) (ih parent.parent_task_id v s')
          ]

  -- Whatever the parent, the coverage that is propagated keeps the meaning of the answers.
  pub propagate_unsat_coverage-Sound :
      (parent : Option ℕ) (now : ℕ) (db : Db)
      → Sound formula upload watched db
      → Sound formula upload watched (propagate_unsat_coverage parent now db).0
  unfolding propagate_unsat_coverage
  propagate_unsat_coverage-Sound parent now db s =
      result (propagate (suc (length db.tasks)) parent now db)
        (propagate-Sound (suc (length db.tasks)) parent now db s)
    where
      result :
          (o : Option (Db × Option Verdict))
          → RoundSound o
          → Sound formula upload watched (result_or db o).0
      result none h = s
      result (some r) h = h

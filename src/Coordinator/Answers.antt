-- ===== src/Coordinator/Answers.antt =====
-- What the answers of a job mean: the invariant of worker/job-coordinator.ts that each handler
-- keeps, and how it passes through an UPDATE. `formula` is the clause list that the job's formula
-- hash names.
use hive_sat.Prelude.{
  ℕ, ◌≡◌, ◌≢◌, sym, subst, ap, ◌∙◌, Bool, true, false, not, List, [], ◌∷◌, Option, none, some, all,
  All, ℤ, is_zero, arith, ◌==◌, ==_iff, All-map, Bool-cases, inl, inr,
}
use hive_sat.Cnf.{Valuation, formula_true, Unsat, UnsatUnder}
use hive_sat.Coordinator.State.{JobState, JobRow, TaskRow, Db, root_id}
use hive_sat.Coordinator.Tables.{is_uploading, update, All-update, is_unsat, task}

-- Some valuation makes every clause true.
abbrev pub Satisfiable : List (List ℤ) → Type 0
Satisfiable f = (v : Valuation) × (formula_true v f ≡ true)

abbrev pub is_job_unsat : JobState → Bool
is_job_unsat JobState.unsat_certified = true
is_job_unsat JobState.unsat_owner_verified = true
is_job_unsat _ = false

abbrev pub is_job_sat : JobState → Bool
is_job_sat JobState.sat_verified = true
is_job_sat _ = false

-- A certified task's cube is refuted; the root's cube is empty; no stored literal is 0.
pub record TaskFacts (formula : List (List ℤ)) (t : TaskRow) : Type 0 where
  pub refuted : is_unsat t.state ≡ true → UnsatUnder formula t.assumptions
  pub root_cube : t.task_id ≡ root_id → t.assumptions ≡ []
  pub nonzero : all (λ l. not (is_zero l)) t.assumptions ≡ true

-- The primary key of the tasks.
abbrev pub Distinct : List TaskRow → Type 0
Distinct [] = Unit {0}
Distinct (t ∷ ts) = All (λ u. u.task_id ≢ t.task_id) ts × Distinct ts

-- `upload` is what an upload of the formula that is still awaited goes with.
pub record JobFacts (formula : List (List ℤ)) (upload : Type 0) (j : JobRow) : Type 0 where
  pub unsat : is_job_unsat j.state ≡ true → Unsat formula
  pub sat : is_job_sat j.state ≡ true → Satisfiable formula
  pub uploading : is_uploading j.state ≡ true → upload

abbrev pub JobSound : List (List ℤ) → Type 0 → Option JobRow → Type 0
JobSound formula upload none = Unit {0}
JobSound formula upload (some j) = JobFacts formula upload j

-- The cube of a row that was read earlier is still that of the row: cubes do not change.
abbrev pub SameCube : List TaskRow → TaskRow → Type 0
SameCube ts t = All (λ r. r.task_id ≡ t.task_id → r.assumptions ≡ t.assumptions) ts

-- `watched` are the rows that handlers hold while they wait for a verifier.
abbrev pub TasksSound : List (List ℤ) → List TaskRow → List TaskRow → Type 0
TasksSound formula watched ts = All (TaskFacts formula) ts × Distinct ts × All (SameCube ts) watched

pub record Sound (formula : List (List ℤ)) (upload : Type 0) (watched : List TaskRow) (db : Db)
    : Type 0 where
  pub tasks : TasksSound formula watched db.tasks
  pub job : JobSound formula upload db.job

-- A SET that keeps the key and the cube.
abbrev pub Keeps : (TaskRow → TaskRow) → Type 0
Keeps f = (t : TaskRow) → ((f t).task_id ≡ t.task_id) × ((f t).assumptions ≡ t.assumptions)

fresh-update :
    (id : ℕ) (p : TaskRow → Bool) (f : TaskRow → TaskRow)
    → Keeps f
    → (ts : List TaskRow) → All (λ u. u.task_id ≢ id) ts
    → All (λ u. u.task_id ≢ id) (update p f ts)
fresh-update id p f k ts h =
    All-update (λ u. u.task_id ≢ id) p f (λ t a e q. a (sym (k t).0 ∙ q)) ts h

pub Distinct-update :
    (p : TaskRow → Bool) (f : TaskRow → TaskRow)
    → Keeps f
    → (ts : List TaskRow) → Distinct ts
    → Distinct (update p f ts)
Distinct-update p f k [] d = tt
Distinct-update p f k (t ∷ ts) (h, d) = elim (Bool-cases (p t)) [
  | inl e ↦ rw e (rw ((k t).0) (fresh-update t.task_id p f k ts h), Distinct-update p f k ts d)
  | inr e ↦ rw e (fresh-update t.task_id p f k ts h, Distinct-update p f k ts d)
]

SameCube-update :
    (p : TaskRow → Bool) (f : TaskRow → TaskRow)
    → Keeps f
    → (w : TaskRow) (ts : List TaskRow) → SameCube ts w
    → SameCube (update p f ts) w
SameCube-update p f k w ts c =
    All-update (λ r. r.task_id ≡ w.task_id → r.assumptions ≡ w.assumptions) p f
      (λ r a e q. (k r).1 ∙ a (sym (k r).0 ∙ q)) ts c

-- An UPDATE whose new states follow from what held.
pub TasksSound-update :
    (formula : List (List ℤ)) (watched : List TaskRow) (p : TaskRow → Bool) (f : TaskRow → TaskRow)
    → Keeps f
    → (ts : List TaskRow)
    → All (λ t. p t ≡ true → is_unsat (f t).state ≡ true → UnsatUnder formula t.assumptions) ts
    → TasksSound formula watched ts
    → TasksSound formula watched (update p f ts)
TasksSound-update formula watched p f k ts h s = (
  facts ts h s.0,
  Distinct-update p f k ts s.1,
  All-map (λ w c. SameCube-update p f k w ts c) watched s.2,
)
  where
    facts :
        (xs : List TaskRow)
        → All (λ t. p t ≡ true → is_unsat (f t).state ≡ true → UnsatUnder formula t.assumptions) xs
        → All (TaskFacts formula) xs
        → All (TaskFacts formula) (update p f xs)
    facts [] h a = tt
    facts (t ∷ xs) (h, hs) (a, rest) = elim (Bool-cases (p t)) [
      | inl e ↦ rw e (
        record {
          refuted = λ q. rw ((k t).1) (h e q);
          root_cube = λ q. (k t).1 ∙ a.root_cube (sym (k t).0 ∙ q);
          nonzero = rw ((k t).1) a.nonzero;
        },
        facts xs hs rest,
      )
      | inr e ↦ rw e (a, facts xs hs rest)
    ]

-- A SET to a state that certifies nothing.
pub TasksSound-demote :
    (formula : List (List ℤ)) (watched : List TaskRow) (p : TaskRow → Bool) (f : TaskRow → TaskRow)
    → Keeps f
    → ((t : TaskRow) → is_unsat (f t).state ≡ false)
    → (ts : List TaskRow) → TasksSound formula watched ts
    → TasksSound formula watched (update p f ts)
TasksSound-demote formula watched p f k d ts s =
    TasksSound-update formula watched p f k ts (trivial ts) s
  where
    trivial :
        (xs : List TaskRow)
        → All (λ t. p t ≡ true → is_unsat (f t).state ≡ true → UnsatUnder formula t.assumptions) xs
    trivial [] = tt
    trivial (t ∷ xs) = ((λ e q. absurd (ground (arith, d t))), trivial xs)

-- The row that a key finds is the only one.
pub task_unique :
    (id : ℕ) (ts : List TaskRow) (row : TaskRow)
    → Distinct ts
    → task id ts ≡ some row
    → All (λ t. t.task_id ≡ id → t ≡ row) ts
unfolding task
task_unique id [] row d e = tt
task_unique id (t ∷ ts) row (h, d) e = elim (Bool-cases (t.task_id == id)) [
  | inl q ↦
      let found : t ≡ row = ground arith in
      ((λ g. found), All-map (λ u n g. absurd (n (g ∙ sym ((==_iff t.task_id id).0 q)))) ts h)
  | inr q ↦ ((λ g. absurd (ground arith)), task_unique id ts row d (ground arith))
]

-- What holds of all rows holds of the row that a key finds.
pub task-All {κ} :
    (P : TaskRow → Type κ) (id : ℕ) (ts : List TaskRow) (row : TaskRow)
    → All P ts
    → task id ts ≡ some row
    → P row × (row.task_id ≡ id)
unfolding task
task-All P id [] row a e = absurd (cc)
task-All P id (t ∷ ts) row (a, rest) e = elim (Bool-cases (t.task_id == id)) [
  | inl q ↦
      let found : t ≡ row = ground arith in
      (subst P found a, ap (λ r. r.task_id) (sym found) ∙ (==_iff t.task_id id).0 q)
  | inr q ↦ task-All P id ts row rest (ground arith)
]

-- A handler that reads a row watches it.
pub watch :
    (formula : List (List ℤ)) (upload : Type 0) (watched : List TaskRow) (id : ℕ) (t : TaskRow)
    (db : Db)
    → task id db.tasks ≡ some t
    → Sound formula upload watched db
    → Sound formula upload (t ∷ watched) db
watch formula upload watched id t db e s = record {
  tasks = (s.tasks.0, s.tasks.1, (here, s.tasks.2));
  job = s.job;
}
  where
    here : SameCube db.tasks t
    here =
        All-map
          (λ r u q.
            ap (λ x. x.assumptions)
              (u (q ∙ (task-All (λ x. Unit {0}) id db.tasks t (trivial db.tasks) e).1)))
          db.tasks (task_unique id db.tasks t s.tasks.1 e)
      where
        trivial : (ts : List TaskRow) → All (λ x. Unit {0}) ts
        trivial [] = tt
        trivial (x ∷ xs) = (tt, trivial xs)

pub unwatch :
    (formula : List (List ℤ)) (upload : Type 0) (watched : List TaskRow) (t : TaskRow) (db : Db)
    → Sound formula upload (t ∷ watched) db
    → Sound formula upload watched db
unwatch formula upload watched t db s = record {
  tasks = (s.tasks.0, s.tasks.1, s.tasks.2.1);
  job = s.job;
}

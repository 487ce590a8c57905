-- ===== src/Swarm/FairScheduler/Choice.antt =====
-- The choice of worker/fair-scheduler.ts: a job with the least score, and no more workers than fit.
use mathlib.Core.List.{Mem, mem-cons_self, mem-cons_of_mem}
use hive_sat.Prelude.{
  max, lt→ltb, ltb→lt, All-filter, ltb→ge, filter, ℕ, ◌≡◌, ◌+◌, ◌≤◌, ◌<◌, refl, Bool, true, false,
  List, [], ◌∷◌, Option, none, some, All, All-map, ltb, Bool-cases, inl, inr, arith, if◌then◌else◌,
}
use hive_sat.Prelude.Rows.{All-sort_by, sort_by, insert_by, head?}
use hive_sat.Swarm.State.{swarm_max_job_workers}
use hive_sat.Swarm.FairScheduler.{
  granted_workers, select_fair_job, FairJob, fair_service_score_20, no_later, Selected,
}

module _ {ℓ} {A : Type ℓ} (before : A → A → Bool) where
  -- The first of an order, kept up while rows are read.
  abbrev sooner : A → Option A → Option A
  sooner x none = some x
  sooner x (some y) = some (if before x y then x else y)

  head-insert_by : (x : A) (xs : List A) → head? (insert_by before x xs) ≡ sooner x (head? xs)
  head-insert_by x [] = refl
  head-insert_by x (y ∷ ys) = elim (Bool-cases (before x y)) [ inl e ↦ rw e | inr e ↦ rw e ]

  -- What a sort puts first is before every row.
  abbrev IsLeast : List A → Option A → Type 0
  IsLeast xs none = All (λ x. true ≡ false) xs
  IsLeast xs (some y) = All (λ x. before y x ≡ true) xs

module _ {ℓ} {A : Type ℓ} (before : A → A → Bool)
    (total : (x y : A) → before x y ≡ false → before y x ≡ true)
    (trans : (x y z : A) → before x y ≡ true → before y z ≡ true → before x z ≡ true) where
  before_self : (x : A) → before x x ≡ true
  before_self x = elim (Bool-cases (before x x)) [ inl e ↦ e | inr e ↦ total x x e ]

  sooner-IsLeast :
      (x : A) (xs : List A) (o : Option A)
      → IsLeast before xs o
      → IsLeast before (x ∷ xs) (sooner before x o)
  sooner-IsLeast x [] none h = (before_self x, tt)
  sooner-IsLeast x (y ∷ ys) none h = cc (h.0)
  sooner-IsLeast x xs (some y) h = pick (before x y) refl
    where
      pick : (b : Bool) → before x y ≡ b → IsLeast before (x ∷ xs) (some (if b then x else y))
      pick true e = (before_self x, All-map (λ z k. trans x y z e k) xs h)
      pick false e = (total x y e, h)

  head-sort_by-IsLeast : (xs : List A) → IsLeast before xs (head? (sort_by before xs))
  head-sort_by-IsLeast [] = tt
  head-sort_by-IsLeast (x ∷ xs) =
      rw (head-insert_by before x (sort_by before xs))
        (sooner-IsLeast x xs (head? (sort_by before xs)) (head-sort_by-IsLeast xs))

no_later_total : (now : ℕ) (x y : FairJob) → no_later now x y ≡ false → no_later now y x ≡ true
unfolding no_later
no_later_total now x y h = ground arith

no_later_trans :
    (now : ℕ) (x y z : FairJob)
    → no_later now x y ≡ true
    → no_later now y z ≡ true
    → no_later now x z ≡ true
unfolding no_later
no_later_trans now x y z h k = ground arith

no_later-le :
    (now : ℕ) (x y : FairJob)
    → no_later now x y ≡ true
    → fair_service_score_20 x now ≤ fair_service_score_20 y now
unfolding no_later
no_later-le now x y h = ground arith

-- Every element of a list is in it.
All-Mem {ℓ} : {A : Type ℓ} (xs : List A) → All (λ x. Mem x xs) xs
All-Mem [] = tt
All-Mem (x ∷ xs) = (mem-cons_self, All-map (λ y h. mem-cons_of_mem x h) xs (All-Mem xs))

-- The job that is served next: it is one of the jobs and has room, no job with room has a lower
-- score, and the browser gets at least one worker and no more than there is room for. No job is
-- served only if none has room.
abbrev pub IsFairChoice : List FairJob → ℕ → Option Selected → Type 0
IsFairChoice jobs now none = All (λ j. swarm_max_job_workers ≤ j.assigned_workers) jobs
IsFairChoice jobs now (some s) =
    Mem s.job jobs
    × (1 ≤ s.workers)
    × (s.job.assigned_workers + s.workers ≤ swarm_max_job_workers)
    × All
        (λ j.
          j.assigned_workers < swarm_max_job_workers
          → fair_service_score_20 s.job now ≤ fair_service_score_20 j now)
        jobs

abbrev has_room : FairJob → Bool
has_room j = ltb j.assigned_workers swarm_max_job_workers

-- What holds of the rows that a test keeps holds of all rows that pass it.
All-of-filter {ℓ κ} :
    {A : Type ℓ} (P : A → Type κ) (p : A → Bool) (xs : List A)
    → All P (filter p xs)
    → All (λ x. p x ≡ true → P x) xs
All-of-filter P p [] a = tt
All-of-filter P p (x ∷ xs) a = elim (Bool-cases (p x)) [
  | inl e ↦ (λ _. (rw e at a).0, All-of-filter P p xs (rw e at a).1)
  | inr e ↦ (λ h. absurd (cc (e, h)), All-of-filter P p xs (rw e at a))
]

filter-All {ℓ} : {A : Type ℓ} (p : A → Bool) (xs : List A) → All (λ x. p x ≡ true) (filter p xs)
filter-All p [] = tt
filter-All p (x ∷ xs) = elim (Bool-cases (p x)) [
  | inl e ↦ rw e (e, filter-All p xs)
  | inr e ↦ rw e (filter-All p xs)
]

-- What holds of the first of a list.
abbrev AtHead {ℓ κ} : {A : Type ℓ} → (A → Type κ) → Option A → Type κ
AtHead P none = Unit
AtHead P (some x) = P x

head?-All {ℓ κ} : {A : Type ℓ} (P : A → Type κ) (xs : List A) → All P xs → AtHead P (head? xs)
head?-All P [] a = tt
head?-All P (x ∷ xs) a = a.0

-- The first job in the order has room, and has any property that all jobs have.
first_job-All {κ} :
    (P : FairJob → Type κ) (now : ℕ) (jobs : List FairJob)
    → All P jobs
    → AtHead P (head? (sort_by (no_later now) (filter has_room jobs)))
first_job-All P now jobs a =
    head?-All P (sort_by (no_later now) (filter has_room jobs))
      (All-sort_by P (no_later now) (filter has_room jobs) (All-filter P has_room jobs a))

-- A property of all jobs is one of the job that is chosen.
abbrev pub AtChoice {κ} : (FairJob → Type κ) → Option Selected → Type κ
AtChoice P none = Unit
AtChoice P (some s) = P s.job

pub select_fair_job-All {κ} :
    (P : FairJob → Type κ) (jobs : List FairJob) (requested now : ℕ)
    → All P jobs
    → AtChoice P (select_fair_job jobs requested now)
unfolding select_fair_job
select_fair_job-All P jobs requested now a =
    after (head? (sort_by (no_later now) (filter has_room jobs))) (first_job-All P now jobs a)
  where
    after :
        (o : Option FairJob)
        → AtHead P o
        → AtChoice P (elim o [
          | none ↦ none
          | some job ↦ some (record { job = job; workers = granted_workers job requested })
        ])
    after none h = tt
    after (some j) h = h

-- The choice among any jobs is fair, however many workers are asked for.
pub select_fair_job-IsFairChoice :
    (jobs : List FairJob) (requested now : ℕ)
    → IsFairChoice jobs now (select_fair_job jobs requested now)
unfolding select_fair_job
select_fair_job-IsFairChoice jobs requested now =
    after (head? (sort_by (no_later now) (filter has_room jobs)))
      (first_job-All (λ j. Mem j jobs) now jobs (All-Mem jobs))
      (head?-All (λ j. has_room j ≡ true) (sort_by (no_later now) (filter has_room jobs))
        (All-sort_by (λ j. has_room j ≡ true) (no_later now) (filter has_room jobs)
          (filter-All has_room jobs)))
      (head-sort_by-IsLeast (no_later now) (no_later_total now) (no_later_trans now)
        (filter has_room jobs))
  where
    after :
        (o : Option FairJob)
        → AtHead (λ j. Mem j jobs) o
        → AtHead (λ j. has_room j ≡ true) o
        → IsLeast (no_later now) (filter has_room jobs) o
        → IsFairChoice jobs now (elim o [
          | none ↦ none
          | some job ↦ some (record { job = job; workers = granted_workers job requested })
        ])
    after none m r h =
        All-map
          (λ j k. elim (Bool-cases (has_room j)) [
            | inl e ↦ cc (k e)
            | inr e ↦ ltb→ge j.assigned_workers swarm_max_job_workers e
          ])
          jobs (All-of-filter _ has_room jobs h)
    after (some s) m r h = (
      m,
      omega arith,
      omega (arith, ltb→lt s.assigned_workers swarm_max_job_workers r),
      All-map (λ j k room. no_later-le now s j (k (lt→ltb j.assigned_workers 8 room))) jobs
          (All-of-filter (λ j. no_later now s j ≡ true) has_room jobs h),
    )

-- The workers of the choice.
abbrev pub IsGranted : ℕ → Option Selected → Type 0
IsGranted requested none = Unit
IsGranted requested (some s) = s.workers ≤ max 1 requested

pub select_fair_job-IsGranted :
    (jobs : List FairJob) (requested now : ℕ)
    → IsGranted requested (select_fair_job jobs requested now)
unfolding select_fair_job
select_fair_job-IsGranted jobs requested now =
    after (head? (sort_by (no_later now) (filter has_room jobs)))
  where
    after :
        (o : Option FairJob)
        → IsGranted requested (elim o [
          | none ↦ none
          | some job ↦ some (record { job = job; workers = granted_workers job requested })
        ])
    after none = tt
    after (some j) = omega arith

-- ===== src/Swarm/Assignments/Offers.antt =====
-- `assign` of worker/swarm-directory.ts: what each of its answers means.
use hive_sat.Swarm.FairScheduler.Choice.{
  IsFairChoice, AtChoice, IsGranted, select_fair_job-IsFairChoice, select_fair_job-All,
  select_fair_job-IsGranted,
}
use hive_sat.Swarm.Assignments.{
  charge_job, select_fair_job, Selected, expire_assignments, offer, reconcile, commit,
  assign_within, assign, reconcile_previous, reconcile_row, serve, reserve,
}
use hive_sat.Prelude.{
  eq_self, ◌∙◌, ltb→lt, ℕ, ◌≡◌, ◌≤◌, ◌<◌, ◌+◌, ◌*◌, refl, ◌==◌, ◌&&◌, max, Bool, true, false, List,
  [], ◌∷◌, Option, none, some, All, All-map, filter, any, ltb, Bool-cases, inl, inr, arith, find?,
}
use hive_sat.Prelude.Rows.{count, update}
use hive_sat.Prelude.Keys.{All-map_list}
use hive_sat.Protocol.Capabilities.{calibrated_task_profile, WorkerCapabilities}
use hive_sat.Swarm.State.{
  ActiveJobRow, AssignmentRow, AssignmentStatus, Directory, PreviousSwarmAssignment, Assigned,
  SwarmAssignmentResult, swarm_max_job_workers, swarm_assignment_quantum_ms,
  swarm_assignment_activation_ms,
}
use hive_sat.Swarm.Directory.{schedule_next_alarm, active_fair_jobs}

-- A row of a job that can be served.
abbrev is_eligible : ℕ → ActiveJobRow → Bool
is_eligible job j = (j.job_id == job) && j.eligible

abbrev offered_row : ℕ → ℕ → Assigned → AssignmentRow
offered_row session now a = record {
  assignment_id = a.assignment_id;
  job_id = a.job_id;
  session_id = session;
  workers = a.workers;
  reserved_worker_ms = a.reserved_worker_ms;
  actual_worker_ms = none;
  status = AssignmentStatus.pending;
  assigned_at = now;
  expires_at = now + swarm_assignment_activation_ms;
}

-- The report on a previous assignment is refused: it is not one of the session's, or the time is
-- more than was reserved.
abbrev IsRefused : ℕ → PreviousSwarmAssignment → Option AssignmentRow → Type 0
IsRefused session p none = Unit
IsRefused session p (some a) = a.reserved_worker_ms < p.active_worker_ms

-- What an answer means for the directory that is left.
abbrev pub IsServed :
    ℕ
    → WorkerCapabilities
    → Option PreviousSwarmAssignment
    → ℕ
    → Directory
    → Directory × SwarmAssignmentResult
    → Type 0
IsServed session capabilities previous now d (d', SwarmAssignmentResult.assigned a) =
    (1 ≤ a.workers)
    × (a.workers ≤ swarm_max_job_workers)
    × (a.workers ≤ max 1 capabilities.max_workers)
    × (a.reserved_worker_ms ≡ swarm_assignment_quantum_ms * a.workers)
    × (a.quantum_ms ≡ swarm_assignment_quantum_ms)
    × (a.conflict_budget ≡ (calibrated_task_profile capabilities).conflict_budget)
    × (a.lease_target_ms ≡ (calibrated_task_profile capabilities).lease_duration_ms)
    × (any (is_eligible a.job_id) d'.jobs ≡ true)
    × (find? (λ b. b.assignment_id == a.assignment_id) d'.assignments
        ≡ some (offered_row session now a))
IsServed session capabilities previous now d (d', SwarmAssignmentResult.no_work) =
    All (λ j. (j.eligible && ltb j.assigned_workers swarm_max_job_workers) ≡ false) d'.jobs
IsServed session capabilities previous now d (d', SwarmAssignmentResult.invalid_assignment) =
    (p : PreviousSwarmAssignment) × (previous ≡ some p)
    × IsRefused session p (
        find? (λ a. (a.assignment_id == p.assignment_id) && (a.session_id == session))
          d'.assignments)
IsServed session capabilities previous now d (d', SwarmAssignmentResult.failed) = d' ≡ d

-- Each row passes a test of its own among all rows.
any_self {ℓ} :
    {A : Type ℓ} (p : A → A → Bool) (q : A → Bool)
    → ((x : A) → q x ≡ true → p x x ≡ true)
    → (xs : List A) → All (λ x. q x ≡ true → any (p x) xs ≡ true) xs
any_self p q h [] = tt
any_self p q h (x ∷ xs) =
    (λ e. ground (arith, h x e), All-map (λ y k e. ground (arith, k e)) xs (any_self p q h xs))

any-update {ℓ} :
    {A : Type ℓ} (p q : A → Bool) (f : A → A)
    → ((x : A) → p (f x) ≡ p x)
    → (xs : List A) → any p (update q f xs) ≡ any p xs
any-update p q f h [] = refl
any-update p q f h (x ∷ xs) = ground (arith, h x, any-update p q f h xs)

All-filter_with {ℓ κ} :
    {A : Type ℓ} (P : A → Type κ) (q : A → Bool) (xs : List A)
    → All (λ x. q x ≡ true → P x) xs
    → All P (filter q xs)
All-filter_with P q [] h = tt
All-filter_with P q (x ∷ xs) h = elim (Bool-cases (q x)) [
  | inl e ↦ rw e (h.0 e, All-filter_with P q xs h.1)
  | inr e ↦ rw e (All-filter_with P q xs h.1)
]

-- The jobs that the scheduler sees are eligible.
active_fair_jobs-eligible :
    (jobs : List ActiveJobRow)
    → All (λ j. any (is_eligible j.job_id) jobs ≡ true) (active_fair_jobs jobs)
unfolding active_fair_jobs
active_fair_jobs-eligible jobs =
    All-map_list (λ j. any (is_eligible j.job_id) jobs ≡ true) _ _
      (All-filter_with (λ x. any (is_eligible x.job_id) jobs ≡ true)
        (λ j. j.eligible && ltb j.assigned_workers swarm_max_job_workers) jobs
        (any_self (λ x. is_eligible x.job_id)
          (λ j. j.eligible && ltb j.assigned_workers swarm_max_job_workers) (λ x e. ground arith)
          jobs))

-- If no job that the scheduler sees has room, it sees none.
none_seen :
    (jobs : List ActiveJobRow)
    → All (λ j. swarm_max_job_workers ≤ j.assigned_workers) (active_fair_jobs jobs)
    → All (λ j. (j.eligible && ltb j.assigned_workers swarm_max_job_workers) ≡ false) jobs
unfolding active_fair_jobs
none_seen [] h = tt
none_seen (j ∷ jobs) h =
    elim (Bool-cases (j.eligible && ltb j.assigned_workers swarm_max_job_workers)) [
      | inl e ↦ absurd (ground (arith, (rw e at h).0))
      | inr e ↦ (e, none_seen jobs (rw e at h))
    ]

module _ (session : ℕ) (capabilities : WorkerCapabilities)
    (previous : Option PreviousSwarmAssignment) (now : ℕ) (d : Directory) where
  reserved-IsServed :
      (id : ℕ) (s : Selected) (e : Directory)
      → (1 ≤ s.workers)
      → (s.workers ≤ swarm_max_job_workers)
      → s.workers ≤ max 1 capabilities.max_workers
      → any (is_eligible s.job.job_id) e.jobs ≡ true
      → IsServed session capabilities previous now d (
        schedule_next_alarm (reserve id session s now e),
        SwarmAssignmentResult.assigned (offer id capabilities s),
      )
  unfolding schedule_next_alarm reserve offer
  reserved-IsServed id s e one most granted h = (
    one,
    most,
    granted,
    refl,
    refl,
    refl,
    refl,
    any-update (is_eligible s.job.job_id) (λ j. j.job_id == s.job.job_id) (charge_job s now)
          (λ j. refl) e.jobs
        ∙ h,
    rw (eq_self id),
  )

  served :
      (id : ℕ) (e : Directory) (o : Option Selected)
      → IsFairChoice (active_fair_jobs e.jobs) now o
      → AtChoice (λ j. any (is_eligible j.job_id) e.jobs ≡ true) o
      → IsGranted capabilities.max_workers o
      → IsServed session capabilities previous now d
          (commit d (serve id session capabilities now e o))
  unfolding serve commit schedule_next_alarm
  served id e none f h g = none_seen e.jobs f
  served id e (some s) f h g =
      elim (Bool-cases (ltb 0 (count (λ a. a.assignment_id == id) e.assignments))) [
        | inl k ↦ rw k refl
        | inr k ↦ rw k (reserved-IsServed id s e f.1 (omega (arith, f.2)) g h)
      ]

  refused :
      (p : PreviousSwarmAssignment) (e : Directory) (o : Option AssignmentRow)
      → (reconcile_row p.active_worker_ms e o).1 ≡ false
      → IsRefused session p o × ((reconcile_row p.active_worker_ms e o).0 ≡ e)
  unfolding reconcile_row
  refused p e none h = (tt, refl)
  refused p e (some a) h = elim (Bool-cases (ltb a.reserved_worker_ms p.active_worker_ms)) [
    | inl f ↦ rw f (ltb→lt a.reserved_worker_ms p.active_worker_ms f, refl)
    | inr f ↦ absurd (ground (arith, h, f))
  ]

  refused-IsServed :
      (o : Option PreviousSwarmAssignment) (e : Directory)
      → previous ≡ o
      → (reconcile_previous session o e).1 ≡ false
      → IsServed session capabilities previous now d (
        schedule_next_alarm (reconcile_previous session o e).0,
        SwarmAssignmentResult.invalid_assignment,
      )
  unfolding reconcile_previous reconcile schedule_next_alarm
  refused-IsServed none e q h = cc
  refused-IsServed (some p) e q h =
      let found =
        find? (λ a. (a.assignment_id == p.assignment_id) && (a.session_id == session))
          e.assignments in
      let r = refused p e found h in (p, q, rw r.1 r.0)

-- Every answer of `assign` is right.
pub assign-IsServed :
    (id session : ℕ) (capabilities : WorkerCapabilities) (previous : Option PreviousSwarmAssignment)
    (now : ℕ) (d : Directory)
    → IsServed session capabilities previous now d (assign id session capabilities previous now d)
unfolding assign assign_within commit
assign-IsServed id session capabilities previous now d =
    let r = reconcile_previous session previous (expire_assignments now d) in
    elim (Bool-cases r.1) [
      | inl e ↦ rw e (
          served session capabilities previous now d id r.0
            (select_fair_job (active_fair_jobs r.0.jobs) capabilities.max_workers now)
            (select_fair_job-IsFairChoice (active_fair_jobs r.0.jobs) capabilities.max_workers now)
            (select_fair_job-All (λ j. any (is_eligible j.job_id) r.0.jobs ≡ true)
              (active_fair_jobs r.0.jobs) capabilities.max_workers now
              (active_fair_jobs-eligible r.0.jobs))
            (select_fair_job-IsGranted (active_fair_jobs r.0.jobs) capabilities.max_workers now))
      | inr e ↦ rw e (
          refused-IsServed session capabilities previous now d previous (expire_assignments now d)
            refl e)
    ]

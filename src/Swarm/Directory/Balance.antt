-- ===== src/Swarm/Directory/Balance.antt =====
-- The other operations of worker/swarm-directory.ts keep the accounts.
use hive_sat.Prelude.{
  find?, ℕ, ◌≡◌, refl, sym, ◌∙◌, ◌==◌, ◌&&◌, ◌||◌, not, Bool, false, List, [], ◌∷◌, none, All,
  filter, ltb, leb, length, Bool-cases, Option-cases, inl, inr, arith,
}
use hive_sat.Prelude.Rows.{update, count, All-update}
use hive_sat.Prelude.Keys.{IsUnique-filter, IsUnique-update, count-zero-find?, sum_of-update_same}
use hive_sat.Swarm.State.{
  ActiveJobRow, AssignmentRow, AssignmentStatus, Directory, AdmissionInput, ReplayRow,
}
use hive_sat.Swarm.Directory.{
  CreationRow, is_live, schedule_next_alarm, consume_turnstile, new_job, insert_job, admit,
  admit_within, same_creator_job, rate_limit, forget_events, close, set_eligible, rollback,
}
use hive_sat.Swarm.Ledger.{
  due, live_sum, IsBalanced, IsConsistent, schedule_next_alarm-IsConsistent, kept_jobs-IsConsistent,
}

-- No live assignment names the job.
abbrev pub IsNew : ℕ → Directory → Type 0
IsNew job d = All (λ a. (a.job_id == job && is_live a.status) ≡ false) d.assignments

live_sum-IsNew :
    (f : AssignmentRow → ℕ) (job : ℕ) (rows : List AssignmentRow)
    → All (λ a. (a.job_id == job && is_live a.status) ≡ false) rows
    → live_sum f job rows ≡ 0
live_sum-IsNew f job [] h = refl
live_sum-IsNew f job (a ∷ rows) h = rw h.0 (omega (arith, live_sum-IsNew f job rows h.1))

module _ (i : AdmissionInput) (d : Directory)
    (free : ltb 0 (count (λ j. j.job_id == i.job_id || same_creator_job i j) d.jobs) ≡ false) where
  -- A column that the test reads is free.
  column_free :
      (q : ActiveJobRow → Bool)
      → ((j : ActiveJobRow) → (j.job_id == i.job_id || same_creator_job i j) ≡ false → q j ≡ false)
      → find? q d.jobs ≡ none
  column_free q narrow = count-zero-find? _ q narrow d.jobs free

  inserted-IsConsistent :
      (events : List CreationRow)
      → IsConsistent d
      → IsNew i.job_id d
      → IsConsistent (record d { jobs = new_job i d ∷ d.jobs; events = events })
  unfolding new_job
  inserted-IsConsistent events c h = record {
    assignment_ids = c.assignment_ids;
    job_ids = (column_free _ (λ j e. ground arith), c.job_ids);
    devices = (column_free _ (λ j e. ground arith), c.devices);
    networks = (column_free _ (λ j e. ground arith), c.networks);
    balanced = (
      record {
        workers = sym (live_sum-IsNew (λ a. a.workers) i.job_id d.assignments h);
        reserved = sym (live_sum-IsNew (λ a. a.reserved_worker_ms) i.job_id d.assignments h);
        charged = omega arith;
        capped = omega arith;
      },
      c.balanced,
    );
  }

insert_job-IsConsistent :
    (i : AdmissionInput) (d : Directory)
    → IsConsistent d
    → IsNew i.job_id d
    → IsConsistent (insert_job i d).0
unfolding insert_job
insert_job-IsConsistent i d c h =
    elim (Bool-cases (ltb 0 (count (λ j. j.job_id == i.job_id || same_creator_job i j) d.jobs))) [
      | inl e ↦ rw e c
      | inr e ↦ elim (Bool-cases (ltb 0 (count (λ x. x.job_id == i.job_id) d.events))) [
        | inl f ↦ rw (e, f) c
        | inr f ↦ rw (e, f) (schedule_next_alarm-IsConsistent _ (inserted-IsConsistent i d e _ c h))
      ]
    ]

admit_within-IsConsistent :
    (i : AdmissionInput) (d : Directory)
    → IsConsistent d
    → IsNew i.job_id d
    → IsConsistent (admit_within i d).0
unfolding admit_within
admit_within-IsConsistent i d c h = elim (Bool-cases (leb i.global_ceiling (length d.jobs))) [
  | inl e ↦ rw e c
  | inr e ↦ elim (Bool-cases (ltb 0 (count (same_creator_job i) d.jobs))) [
    | inl f ↦ rw (e, f) c
    | inr f ↦ elim (Option-cases (rate_limit i d.events)) [
      | inl g ↦ rw (e, f, g) (insert_job-IsConsistent i d c h)
      | inr (t, g) ↦ rw (e, f, g) c
    ]
  ]
]

forget_events-IsConsistent :
    (now : ℕ) (d : Directory) → IsConsistent d → IsConsistent (forget_events now d)
forget_events-IsConsistent now d c = record {
  assignment_ids = c.assignment_ids;
  job_ids = c.job_ids;
  devices = c.devices;
  networks = c.networks;
  balanced = c.balanced;
}

pub admit-IsConsistent :
    (i : AdmissionInput) (d : Directory)
    → IsConsistent d
    → IsNew i.job_id d
    → IsConsistent (admit i d).0
unfolding admit
admit-IsConsistent i d c h =
    admit_within-IsConsistent i (forget_events i.created_at d)
      (forget_events-IsConsistent i.created_at d c) h

cancelled_row : AssignmentRow → AssignmentRow
cancelled_row a = record a { status = AssignmentStatus.cancelled }

-- The sums of the other jobs stay when the assignments of one are cancelled.
live_sum-cancelled :
    (f : AssignmentRow → ℕ) (id job : ℕ)
    → (job == id) ≡ false
    → ((a : AssignmentRow) → f (cancelled_row a) ≡ f a)
    → (rows : List AssignmentRow)
    → live_sum f job (update (λ a. a.job_id == id && is_live a.status) cancelled_row rows)
      ≡ live_sum f job rows
unfolding cancelled_row
live_sum-cancelled f id job e same rows =
    sum_of-update_same (due f job) (λ a. a.job_id == id && is_live a.status) cancelled_row
      (λ a h. ground arith) rows

-- Balanced jobs other than the one that is closed.
others_kept :
    (id : ℕ) (rows : List AssignmentRow) (jobs : List ActiveJobRow)
    → All (IsBalanced rows) jobs
    → All
        (IsBalanced (update (λ a. a.job_id == id && is_live a.status) cancelled_row rows))
        (filter (λ j. not (j.job_id == id)) jobs)
unfolding cancelled_row
others_kept id rows [] h = tt
others_kept id rows (j ∷ jobs) (b, rest) = elim (Bool-cases (j.job_id == id)) [
  | inl e ↦ rw e (others_kept id rows jobs rest)
  | inr e ↦ rw e (
    record {
      workers =
          b.workers ∙ sym (live_sum-cancelled (λ a. a.workers) id j.job_id e (λ a. refl) rows);
      reserved =
          b.reserved
          ∙ sym (live_sum-cancelled (λ a. a.reserved_worker_ms) id j.job_id e (λ a. refl) rows);
      charged = b.charged;
      capped = b.capped;
    },
    others_kept id rows jobs rest,
  )
]

pub close-IsConsistent : (id : ℕ) (d : Directory) → IsConsistent d → IsConsistent (close id d)
unfolding close cancelled_row
close-IsConsistent id d c =
    schedule_next_alarm-IsConsistent
      (record d {
        assignments = update (λ a. a.job_id == id && is_live a.status) cancelled_row d.assignments;
        jobs = filter (λ j. not (j.job_id == id)) d.jobs;
      })
      (record {
        assignment_ids =
            IsUnique-update (λ a. a.assignment_id) (λ a. a.job_id == id && is_live a.status)
              cancelled_row (λ a. refl) d.assignments c.assignment_ids;
        job_ids = IsUnique-filter (λ j. j.job_id) _ d.jobs c.job_ids;
        devices = IsUnique-filter (λ j. j.device_digest) _ d.jobs c.devices;
        networks = IsUnique-filter (λ j. j.network_digest) _ d.jobs c.networks;
        balanced = others_kept id d.assignments d.jobs c.balanced;
      })

pub rollback-IsConsistent : (id : ℕ) (d : Directory) → IsConsistent d → IsConsistent (rollback id d)
unfolding rollback
rollback-IsConsistent id d c =
    schedule_next_alarm-IsConsistent _
      (kept_jobs-IsConsistent (λ j. not (j.job_id == id)) _ d.replays d c)

marked : Bool → ℕ → ActiveJobRow → ActiveJobRow
marked eligible now j = record j { eligible = eligible; last_service_at = now }

pub set_eligible-IsConsistent :
    (id : ℕ) (eligible : Bool) (now : ℕ) (d : Directory)
    → IsConsistent d
    → IsConsistent (set_eligible id eligible now d).0
unfolding set_eligible marked
set_eligible-IsConsistent id eligible now d c = record {
  assignment_ids = c.assignment_ids;
  job_ids = IsUnique-update (λ j. j.job_id) _ (marked eligible now) (λ j. refl) d.jobs c.job_ids;
  devices =
      IsUnique-update (λ j. j.device_digest) _ (marked eligible now) (λ j. refl) d.jobs c.devices;
  networks =
      IsUnique-update (λ j. j.network_digest) _ (marked eligible now) (λ j. refl) d.jobs c.networks;
  balanced =
      All-update (IsBalanced d.assignments) _ (marked eligible now)
        (λ j b e. record {
          workers = b.workers;
          reserved = b.reserved;
          charged = b.charged;
          capped = b.capped;
        })
        d.jobs c.balanced;
}

replays-IsConsistent :
    (replays : List ReplayRow) (d : Directory)
    → IsConsistent d
    → IsConsistent (schedule_next_alarm (record d { replays = replays }))
replays-IsConsistent replays d c =
    schedule_next_alarm-IsConsistent (record d { replays = replays })
      (record {
        assignment_ids = c.assignment_ids;
        job_ids = c.job_ids;
        devices = c.devices;
        networks = c.networks;
        balanced = c.balanced;
      })

pub consume_turnstile-IsConsistent :
    (token expires_at now : ℕ) (d : Directory)
    → IsConsistent d
    → IsConsistent (consume_turnstile token expires_at now d).0
unfolding consume_turnstile
consume_turnstile-IsConsistent token expires_at now d c =
    let kept = filter (λ r. not (leb r.expires_at now)) d.replays in
    elim (Bool-cases (ltb 0 (count (λ r. r.token_digest == token) kept))) [
      | inl e ↦ rw e (replays-IsConsistent kept d c)
      | inr e ↦ rw e (
          replays-IsConsistent (record { token_digest = token; expires_at = expires_at } ∷ kept) d
            c)
    ]

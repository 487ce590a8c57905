-- ===== src/Swarm/Assignments/Balance.antt =====
-- The assignment operations of worker/swarm-directory.ts keep the accounts.
use hive_sat.Prelude.{
  ℕ, ◌≡◌, ◌≤◌, refl, sym, ◌==◌, ◌∙◌, ◌&&◌, ◌||◌, ◌+◌, false, not, List, [], ◌∷◌, Option, none, some,
  All, All-zip, All-map, All-filter, filter, find?, ltb, leb, Bool-cases, inl, inr, &&-true, arith,
}
use hive_sat.Prelude.Rows.{IsUnique, update, count, All-update_with}
use hive_sat.Prelude.Keys.{
  IsUnique-finds, find?-update_other, find?-none-All, find?-All, IsUnique-filter, eq_sym,
  IsUnique-update, count-zero-find?, All-map_list, sum_of-update_same,
}
use hive_sat.Protocol.Capabilities.{WorkerCapabilities}
use hive_sat.Swarm.State.{
  AssignmentStatus, AssignmentRow, Directory, swarm_max_job_workers, swarm_assignment_quantum_ms,
  PreviousSwarmAssignment, SwarmAssignmentResult,
}
use hive_sat.Swarm.FairScheduler.{reconciled_virtual_runtime, FairJob, Selected, select_fair_job}
use hive_sat.Swarm.FairScheduler.Choice.{
  IsFairChoice, AtChoice, select_fair_job-IsFairChoice, select_fair_job-All,
}
use hive_sat.Swarm.Directory.{is_live, is_pending, is_active, active_fair_jobs}
use hive_sat.Swarm.Ledger.{
  IsConsistent, IsLiveIn, ended-IsConsistent, live_sum, IsBalanced, due,
  schedule_next_alarm-IsConsistent, kept_jobs-IsConsistent,
}
use hive_sat.Swarm.Assignments.{
  release, expire_one, expire_each, is_overdue, expire_assignments, settle, complete, reconcile,
  reconcile_row, reconcile_previous, reserve, charge_job, serve, assign_within, commit, assign,
  activate_row, activate_within, activate, alarm,
}

expire_one-IsConsistent :
    (a : AssignmentRow) (d : Directory)
    → IsConsistent d
    → IsLiveIn d.assignments a
    → IsConsistent (expire_one a d)
unfolding expire_one
expire_one-IsConsistent a d c h =
    ended-IsConsistent a (λ b. record b { status = AssignmentStatus.expired })
      (λ j. (release a j).virtual_worker_ms) (λ b. refl) (λ b. refl) (λ j k. ground arith) d c h

complete-IsConsistent :
    (a : AssignmentRow) (actual : ℕ) (d : Directory)
    → IsConsistent d
    → IsLiveIn d.assignments a
    → IsConsistent (complete a actual d)
unfolding complete reconciled_virtual_runtime
complete-IsConsistent a actual d c h =
    ended-IsConsistent a
      (λ b. record b { status = AssignmentStatus.complete; actual_worker_ms = some actual })
      (λ j. (settle a actual j).virtual_worker_ms) (λ b. refl) (λ b. refl) (λ j k. omega arith) d c
      h

-- The assignments that the loop has still to reach are live.
expire_each-IsConsistent :
    (rest : List AssignmentRow) (d : Directory)
    → IsConsistent d
    → IsUnique (λ a. a.assignment_id) rest
    → All (IsLiveIn d.assignments) rest
    → IsConsistent (expire_each rest d)
unfolding expire_each expire_one
expire_each-IsConsistent [] d c u h = c
expire_each-IsConsistent (a ∷ rest) d c u h =
    expire_each-IsConsistent rest (expire_one a d) (expire_one-IsConsistent a d c h.0) u.1 (
      All-zip {P = λ b. (b.assignment_id == a.assignment_id) ≡ false} {Q = IsLiveIn d.assignments}
        {R = IsLiveIn (expire_one a d).assignments}
        (λ b e k. (
          find?-update_other (λ y. y.assignment_id) a.assignment_id b.assignment_id _ (λ y. refl)
                (eq_sym b.assignment_id a.assignment_id e) d.assignments
              ∙ k.0,
          k.1,
        ))
        rest (find?-none-All (λ y. y.assignment_id == a.assignment_id) rest u.0) h.1)

overdue-IsLiveIn :
    (now : ℕ) (rows found : List AssignmentRow)
    → All (λ a. find? (λ b. b.assignment_id == a.assignment_id) rows ≡ some a) found
    → All (IsLiveIn rows) (filter (is_overdue now) found)
overdue-IsLiveIn now rows [] h = tt
overdue-IsLiveIn now rows (a ∷ found) h = elim (Bool-cases (is_overdue now a)) [
  | inl e ↦ rw e ((h.0, (&&-true _ _ e).0), overdue-IsLiveIn now rows found h.1)
  | inr e ↦ rw e (overdue-IsLiveIn now rows found h.1)
]

pub expire_assignments-IsConsistent :
    (now : ℕ) (d : Directory) → IsConsistent d → IsConsistent (expire_assignments now d)
unfolding expire_assignments
expire_assignments-IsConsistent now d c =
    expire_each-IsConsistent (filter (is_overdue now) d.assignments) d c
      (IsUnique-filter (λ a. a.assignment_id) (is_overdue now) d.assignments c.assignment_ids)
      (overdue-IsLiveIn now d.assignments d.assignments
        (IsUnique-finds (λ a. a.assignment_id) d.assignments c.assignment_ids))

reconcile_row-IsConsistent :
    (actual : ℕ) (d : Directory) (o : Option AssignmentRow)
    → IsConsistent d
    → ((a : AssignmentRow)
        → o ≡ some a
        → find? (λ b. b.assignment_id == a.assignment_id) d.assignments ≡ some a)
    → IsConsistent (reconcile_row actual d o).0
unfolding reconcile_row
reconcile_row-IsConsistent actual d none c h = c
reconcile_row-IsConsistent actual d (some a) c h =
    elim (Bool-cases (ltb a.reserved_worker_ms actual)) [
      | inl f ↦ rw f c
      | inr f ↦ elim (Bool-cases (is_live a.status)) [
        | inl g ↦ rw (f, g) (complete-IsConsistent a actual d c (h a refl, g))
        | inr g ↦ rw (f, g) c
      ]
    ]

pub reconcile-IsConsistent :
    (session id actual : ℕ) (d : Directory)
    → IsConsistent d
    → IsConsistent (reconcile session id actual d).0
unfolding reconcile
reconcile-IsConsistent session id actual d c =
    reconcile_row-IsConsistent actual d
      (find? (λ a. a.assignment_id == id && a.session_id == session) d.assignments) c
      (λ a e.
        find?-All (λ x. find? (λ b. b.assignment_id == x.assignment_id) d.assignments ≡ some x) _
          d.assignments a (IsUnique-finds (λ b. b.assignment_id) d.assignments c.assignment_ids) e)

reconcile_previous-IsConsistent :
    (session : ℕ) (p : Option PreviousSwarmAssignment) (d : Directory)
    → IsConsistent d
    → IsConsistent (reconcile_previous session p d).0
unfolding reconcile_previous
reconcile_previous-IsConsistent session none d c = c
reconcile_previous-IsConsistent session (some p) d c =
    reconcile-IsConsistent session p.assignment_id p.active_worker_ms d c

-- A job as the scheduler sees it.
Counted : List AssignmentRow → FairJob → Type 0
Counted rows j = j.assigned_workers ≡ live_sum (λ a. a.workers) j.job_id rows

active_fair_jobs-Counted :
    (d : Directory) → IsConsistent d → All (Counted d.assignments) (active_fair_jobs d.jobs)
unfolding active_fair_jobs Counted
active_fair_jobs-Counted d c = All-map_list (Counted d.assignments) _ _ (
    All-map (λ j (b : IsBalanced d.assignments j). b.workers) _
      (All-filter (IsBalanced d.assignments) _ d.jobs c.balanced))

reserve-IsConsistent :
    (id session now : ℕ) (s : Selected) (d : Directory)
    → IsConsistent d
    → ltb 0 (count (λ a. a.assignment_id == id) d.assignments) ≡ false
    → Counted d.assignments s.job
    → s.job.assigned_workers + s.workers ≤ swarm_max_job_workers
    → IsConsistent (reserve id session s now d)
unfolding reserve Counted
reserve-IsConsistent id session now s d c fresh counted room = record {
  assignment_ids = (
    count-zero-find? (λ a. a.assignment_id == id) (λ a. a.assignment_id == id) (λ a e. e)
        d.assignments fresh,
    c.assignment_ids,
  );
  job_ids =
      IsUnique-update (λ j. j.job_id) (λ j. j.job_id == s.job.job_id) (charge_job s now) (λ j. refl)
        d.jobs c.job_ids;
  devices =
      IsUnique-update (λ j. j.device_digest) (λ j. j.job_id == s.job.job_id) (charge_job s now)
        (λ j. refl) d.jobs c.devices;
  networks =
      IsUnique-update (λ j. j.network_digest) (λ j. j.job_id == s.job.job_id) (charge_job s now)
        (λ j. refl) d.jobs c.networks;
  balanced =
      All-update_with (IsBalanced d.assignments) _ (λ j. j.job_id == s.job.job_id)
        (charge_job s now) (λ j b e. ground (arith, counted)) (λ j b e. ground arith) d.jobs
        c.balanced;
}

serve-IsConsistent :
    (id session : ℕ) (capabilities : WorkerCapabilities) (now : ℕ) (d : Directory)
    → IsConsistent d
    → IsConsistent
        (serve id session capabilities now d
          (select_fair_job (active_fair_jobs d.jobs) capabilities.max_workers now)).0
unfolding serve
serve-IsConsistent id session capabilities now d c =
    after (select_fair_job (active_fair_jobs d.jobs) capabilities.max_workers now)
      (select_fair_job-IsFairChoice (active_fair_jobs d.jobs) capabilities.max_workers now)
      (select_fair_job-All (Counted d.assignments) (active_fair_jobs d.jobs)
        capabilities.max_workers now (active_fair_jobs-Counted d c))
  where
    after :
        (o : Option Selected)
        → IsFairChoice (active_fair_jobs d.jobs) now o
        → AtChoice (Counted d.assignments) o
        → IsConsistent (serve id session capabilities now d o).0
    after none f h = c
    after (some s) f h =
        elim (Bool-cases (ltb 0 (count (λ a. a.assignment_id == id) d.assignments))) [
          | inl e ↦ rw e c
          | inr e ↦ rw e (reserve-IsConsistent id session now s d c e h f.2)
        ]

assign_within-IsConsistent :
    (id session : ℕ) (capabilities : WorkerCapabilities) (previous : Option PreviousSwarmAssignment)
    (now : ℕ) (d : Directory)
    → IsConsistent d
    → IsConsistent (assign_within id session capabilities previous now d).0
unfolding assign_within
assign_within-IsConsistent id session capabilities previous now d c =
    let r = reconcile_previous session previous (expire_assignments now d) in
    let k =
      reconcile_previous-IsConsistent session previous (expire_assignments now d)
        (expire_assignments-IsConsistent now d c) in
    elim (Bool-cases r.1) [
      | inl e ↦ rw e (serve-IsConsistent id session capabilities now r.0 k)
      | inr e ↦ rw e k
    ]

commit-IsConsistent :
    (d : Directory) (r : Directory × SwarmAssignmentResult)
    → IsConsistent d
    → IsConsistent r.0
    → IsConsistent (commit d r).0
unfolding commit
commit-IsConsistent d (d', SwarmAssignmentResult.failed) c k = c
commit-IsConsistent d (d', SwarmAssignmentResult.no_work) c k =
    schedule_next_alarm-IsConsistent d' k
commit-IsConsistent d (d', SwarmAssignmentResult.invalid_assignment) c k =
    schedule_next_alarm-IsConsistent d' k
commit-IsConsistent d (d', SwarmAssignmentResult.assigned a) c k =
    schedule_next_alarm-IsConsistent d' k

pub assign-IsConsistent :
    (id session : ℕ) (capabilities : WorkerCapabilities) (previous : Option PreviousSwarmAssignment)
    (now : ℕ) (d : Directory)
    → IsConsistent d
    → IsConsistent (assign id session capabilities previous now d).0
unfolding assign
assign-IsConsistent id session capabilities previous now d c =
    commit-IsConsistent d (assign_within id session capabilities previous now d) c
      (assign_within-IsConsistent id session capabilities previous now d c)

begun : ℕ → AssignmentRow → AssignmentRow
begun now b = record b {
  status = AssignmentStatus.active;
  assigned_at = now;
  expires_at = now + swarm_assignment_quantum_ms;
}

-- An assignment that begins is as live as it was.
begun-due :
    (f : AssignmentRow → ℕ) (job now : ℕ)
    → ((b : AssignmentRow) → f (begun now b) ≡ f b)
    → (id : ℕ) (rows : List AssignmentRow)
    → live_sum f job (update (λ b. b.assignment_id == id && is_pending b.status) (begun now) rows)
      ≡ live_sum f job rows
unfolding begun
begun-due f job now same id rows =
    sum_of-update_same (due f job) (λ b. b.assignment_id == id && is_pending b.status) (begun now)
      (λ b e. ground (arith, same b)) rows

activate_row-IsConsistent :
    (now : ℕ) (d : Directory) (o : Option AssignmentRow)
    → IsConsistent d
    → IsConsistent (activate_row now d o).0
unfolding activate_row begun
activate_row-IsConsistent now d none c = c
activate_row-IsConsistent now d (some a) c = elim (Bool-cases (is_active a.status)) [
  | inl e ↦ rw e c
  | inr e ↦ elim (Bool-cases (not (is_pending a.status) || leb a.expires_at now)) [
    | inl f ↦ rw (e, f) c
    | inr f ↦
        rw (e, f)
          (record {
            assignment_ids =
                IsUnique-update (λ b. b.assignment_id)
                  (λ b. b.assignment_id == a.assignment_id && is_pending b.status) (begun now)
                  (λ b. refl) d.assignments c.assignment_ids;
            job_ids = c.job_ids;
            devices = c.devices;
            networks = c.networks;
            balanced =
                All-map
                  (λ j b. record {
                    workers =
                        b.workers
                        ∙ sym (
                            begun-due (λ x. x.workers) j.job_id now (λ x. refl) a.assignment_id
                              d.assignments);
                    reserved =
                        b.reserved
                        ∙ sym (
                            begun-due (λ x. x.reserved_worker_ms) j.job_id now (λ x. refl)
                              a.assignment_id d.assignments);
                    charged = b.charged;
                    capped = b.capped;
                  })
                  d.jobs c.balanced;
          })
  ]
]

pub activate-IsConsistent :
    (id session job now : ℕ) (d : Directory)
    → IsConsistent d
    → IsConsistent (activate id session job now d).0
unfolding activate activate_within
activate-IsConsistent id session job now d c = schedule_next_alarm-IsConsistent _ (
    activate_row-IsConsistent now (expire_assignments now d) _
      (expire_assignments-IsConsistent now d c))

pub alarm-IsConsistent : (now : ℕ) (d : Directory) → IsConsistent d → IsConsistent (alarm now d)
unfolding alarm
alarm-IsConsistent now d c =
    let k = expire_assignments-IsConsistent now d c in
    schedule_next_alarm-IsConsistent _ (kept_jobs-IsConsistent _ _ _ _ k)

-- ===== src/Swarm/Ledger/Snapshot.antt =====
-- `snapshot` of worker/swarm-directory.ts against the assignments that it sums up.
use hive_sat.Prelude.{
  eq_self, ==_iff, ℕ, ◌≡◌, ◌+◌, refl, sym, ◌∙◌, ◌==◌, ◌&&◌, Bool, false, List, [], ◌∷◌, All,
  All-filter, any, filter, none, find?, if◌then◌else◌, Bool-cases, inl, inr, arith,
}
use hive_sat.Prelude.Rows.{sum_of, IsUnique}
use hive_sat.Prelude.Keys.{eq_sym, IsUnique-filter}
use hive_sat.Swarm.State.{ActiveJobRow, AssignmentRow, Directory}
use hive_sat.Swarm.Directory.{is_live, snapshot}
use hive_sat.Swarm.Ledger.{due, live_sum, IsBalanced, IsConsistent}

-- The assignment is live and for one of the jobs.
abbrev serves : List ActiveJobRow → AssignmentRow → Bool
serves jobs a = is_live a.status && any (λ j. j.job_id == a.job_id) jobs

-- The workers of the live assignments for eligible jobs: the sum that the counters stand for.
abbrev pub engaged_workers : Directory → ℕ
engaged_workers d =
    sum_of (λ a. a.workers) (filter (serves (filter (λ j. j.eligible) d.jobs)) d.assignments)

sum_of-filter :
    (p : AssignmentRow → Bool) (f : AssignmentRow → ℕ) (rows : List AssignmentRow)
    → sum_of f (filter p rows) ≡ sum_of (λ a. if p a then f a else 0) rows
sum_of-filter p f [] = refl
sum_of-filter p f (a ∷ rows) = elim (Bool-cases (p a)) [
  | inl e ↦ rw e (omega (arith, sum_of-filter p f rows))
  | inr e ↦ rw e (omega (arith, sum_of-filter p f rows))
]

sum_of-add :
    (v w u : AssignmentRow → ℕ)
    → ((a : AssignmentRow) → v a + w a ≡ u a)
    → (rows : List AssignmentRow) → sum_of v rows + sum_of w rows ≡ sum_of u rows
sum_of-add v w u h [] = omega arith
sum_of-add v w u h (a ∷ rows) = omega (arith, h a, sum_of-add v w u h rows)

none_of :
    (id : ℕ) (jobs : List ActiveJobRow)
    → find? (λ j. j.job_id == id) jobs ≡ none
    → any (λ j. j.job_id == id) jobs ≡ false
none_of id [] h = refl
none_of id (j ∷ jobs) h = elim (Bool-cases (j.job_id == id)) [
  | inl e ↦ absurd (cc (rw e at h))
  | inr e ↦ rw e (none_of id jobs (rw e at h))
]

-- An assignment serves one job at most, if the ids of jobs are unique.
serves-cons :
    (f : AssignmentRow → ℕ) (j : ActiveJobRow) (jobs : List ActiveJobRow)
    → find? (λ k. k.job_id == j.job_id) jobs ≡ none
    → (a : AssignmentRow)
    → due f j.job_id a + (if serves jobs a then f a else 0)
      ≡ (if serves (j ∷ jobs) a then f a else 0)
serves-cons f j jobs h a = elim (Bool-cases (a.job_id == j.job_id)) [
  | inl e ↦
      let same : a.job_id ≡ j.job_id = (==_iff a.job_id j.job_id).0 e in
      rw (same, none_of j.job_id jobs h, eq_self j.job_id) (ground arith)
  | inr e ↦ ground (arith, eq_sym a.job_id j.job_id e)
]

-- The sums over the live assignments of each job make the sum over those that serve a job.
live_sums :
    (f : AssignmentRow → ℕ) (rows : List AssignmentRow) (jobs : List ActiveJobRow)
    → IsUnique (λ j. j.job_id) jobs
    → sum_of (λ j. live_sum f j.job_id rows) jobs
      ≡ sum_of (λ a. if serves jobs a then f a else 0) rows
live_sums f rows [] u = sym (nothing rows)
  where
    nothing : (rows : List AssignmentRow) → sum_of (λ a. if serves [] a then f a else 0) rows ≡ 0
    nothing [] = refl
    nothing (a ∷ rows) = ground (arith, nothing rows)
live_sums f rows (j ∷ jobs) u = omega (
  arith,
  sum_of-add (due f j.job_id) (λ a. if serves jobs a then f a else 0)
      (λ a. if serves (j ∷ jobs) a then f a else 0) (serves-cons f j jobs u.0) rows,
  live_sums f rows jobs u.1,
)

counted :
    (rows : List AssignmentRow) (jobs : List ActiveJobRow)
    → All (IsBalanced rows) jobs
    → sum_of (λ j. j.assigned_workers) jobs
      ≡ sum_of (λ j. live_sum (λ a. a.workers) j.job_id rows) jobs
counted rows [] h = refl
counted rows (j ∷ jobs) (b, rest) = omega (arith, b.workers, counted rows jobs rest)

-- The number of active workers that a consistent directory reports, read from the counters of the
-- eligible jobs, is that of the live assignments for these jobs.
pub snapshot-engaged :
    (d : Directory) → IsConsistent d → (snapshot d).active_workers ≡ engaged_workers d
unfolding snapshot
snapshot-engaged d c =
    let eligible = filter (λ j. j.eligible) d.jobs in
    counted d.assignments eligible
      (All-filter (IsBalanced d.assignments) (λ j. j.eligible) d.jobs c.balanced)
    ∙ live_sums (λ a. a.workers) d.assignments eligible
        (IsUnique-filter (λ j. j.job_id) (λ j. j.eligible) d.jobs c.job_ids)
    ∙ sym (sum_of-filter (serves eligible) (λ a. a.workers) d.assignments)

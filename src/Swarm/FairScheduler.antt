-- ===== src/Swarm/FairScheduler.antt =====
-- worker/fair-scheduler.ts: which job the next free browser serves.
pub mod Choice
use hive_sat.Prelude.{
  ℕ, ◌+◌, ◌-◌, ◌*◌, min, max, Bool, List, [], ◌∷◌, Option, none, some, filter, ltb, leb, ◌==◌,
  if◌then◌else◌,
}
use hive_sat.Prelude.Rows.{sort_by, head?}
use hive_sat.Swarm.State.{swarm_assignment_quantum_ms, swarm_max_job_workers}

pub record FairJob : Type 0 where
  pub job_id : ℕ
  pub virtual_worker_ms : ℕ
  pub assigned_workers : ℕ
  pub last_service_at : ℕ

-- `agingCreditMs`, in twentieths of a millisecond: the factor 0.05 is 1/20.
pub aging_credit_20 : FairJob → ℕ → ℕ
aging_credit_20 job now = min (20 * swarm_assignment_quantum_ms) (now - job.last_service_at)

-- `fairServiceScore`, in twentieths of a millisecond and with a quantum added: a credit is a quantum
-- at most, so that this is a natural number, and it orders jobs as the score does.
pub fair_service_score_20 : FairJob → ℕ → ℕ
unfolding aging_credit_20
fair_service_score_20 job now =
    20 * job.virtual_worker_ms + 20 * swarm_assignment_quantum_ms - aging_credit_20 job now

-- The comparison of the sort in `selectFairJob` does not put `right` first. The numbers that stand
-- for the ids are in the order of `localeCompare`.
pub no_later : ℕ → FairJob → FairJob → Bool
no_later now left right =
    let l = fair_service_score_20 left now in
    let r = fair_service_score_20 right now in
    if l == r
    then if left.last_service_at == right.last_service_at
      then leb left.job_id right.job_id
      else ltb left.last_service_at right.last_service_at
    else ltb l r

pub record Selected : Type 0 where
  pub job : FairJob
  pub workers : ℕ

-- The workers that a browser which asks for `requested` serves the job with.
abbrev pub granted_workers : FairJob → ℕ → ℕ
granted_workers job requested = max 1 (min requested (swarm_max_job_workers - job.assigned_workers))

-- `selectFairJob`, with the number of workers that is asked for rounded down.
unfoldable pub select_fair_job : List FairJob → ℕ → ℕ → Option Selected
unfolding no_later fair_service_score_20
select_fair_job jobs requested now =
    elim (head?
      (sort_by (no_later now) (filter (λ j. ltb j.assigned_workers swarm_max_job_workers) jobs))) [
        | none ↦ none
        | some job ↦ some (record { job = job; workers = granted_workers job requested })
      ]

abbrev least_runtime : ℕ → List FairJob → ℕ
least_runtime acc [] = acc
least_runtime acc (j ∷ js) = least_runtime (min acc j.virtual_worker_ms) js

-- `newJobVirtualRuntime`.
unfoldable pub new_job_virtual_runtime : List FairJob → ℕ
new_job_virtual_runtime [] = 0
new_job_virtual_runtime (j ∷ js) = least_runtime j.virtual_worker_ms js

-- `reconciledVirtualRuntime`: a difference below 0 is 0, as its maximum with 0 is.
unfoldable pub reconciled_virtual_runtime : ℕ → ℕ → ℕ → ℕ
reconciled_virtual_runtime virtual reserved actual = virtual + min reserved actual - reserved

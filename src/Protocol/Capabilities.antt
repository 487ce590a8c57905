-- ===== src/Protocol/Capabilities.antt =====
-- `WorkerCapabilities` of shared/coordinator-protocol.ts and shared/capability-profile.ts.
use Prim.Native.String.{String}
use hive_sat.Prelude.{false, ℕ, Bool, Option, none, some, ltb, leb, if◌then◌else◌, ◌||◌}

pub record WorkerCapabilities : Type 0 where
  pub hardware_concurrency : ℕ
  pub max_workers : ℕ
  pub mobile : Bool
  pub solver_version : String
  pub proof_generation : Option Bool
  pub calibrated_conflicts_per_second : Option ℕ

pub record CalibratedTaskProfile : Type 0 where
  pub conflict_budget : ℕ
  pub lease_duration_ms : ℕ

-- COORDINATOR_LEASE_DURATION_MS
abbrev pub coordinator_lease_duration_ms : ℕ
coordinator_lease_duration_ms = 300000

-- `throughput !== undefined && throughput < x` and `throughput !== undefined && throughput >= x`.
abbrev below : Option ℕ → ℕ → Bool
below none x = false
below (some t) x = ltb t x

abbrev reaches : Option ℕ → ℕ → Bool
reaches none x = false
reaches (some t) x = leb x t

-- `calibratedTaskProfile`.
unfoldable pub calibrated_task_profile : WorkerCapabilities → CalibratedTaskProfile
calibrated_task_profile c =
    let profile : ℕ → CalibratedTaskProfile =
      λ n. record { conflict_budget = n; lease_duration_ms = coordinator_lease_duration_ms } in
    if c.mobile || below c.calibrated_conflicts_per_second 10000
    then profile 50
    else if reaches c.calibrated_conflicts_per_second 200000
    then profile 200
    else profile 100

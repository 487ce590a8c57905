-- ===== src/Coordinator/MachineTests.antt =====
-- Runs of a job of worker/job-coordinator.ts whose formula, 1 and not 1, is refuted: its first answer is
-- a claim, its second a proof, which the verifier or the owner checks.
use hive_sat.Prelude.{
  ℕ, ◌≡◌, refl, true, false, List, [], ◌∷◌, Option, none, some, ℤ, pos, negsuc, Bool-cases, inl,
  inr,
}
use hive_sat.Cnf.{UnsatUnder}
use hive_sat.Coordinator.State.{
  JobState, JobRow, ResultMessage, ManifestKind, unsat, unsat_candidate, unsat_proof,
}
use hive_sat.Coordinator.Tables.{task, processed_response, record_processed, prune_processed}
use hive_sat.Coordinator.Leases.{lease_work_for_slot, grant, next_task}
use hive_sat.Coordinator.Hello.{HelloMessage, handle_hello, store_profile, resume_leases}
use hive_sat.Coordinator.Coverage.{propagate_unsat_coverage, propagate, close_unsat_job}
use hive_sat.Coordinator.Results.{
  receive_result, resume_result, equal_cube, valid_unsat, owner_check_required, finish_unsat,
  accept_unsat,
}
use hive_sat.Coordinator.Uploads.{
  InitializeJobInput, initialize, new_job, authorize_upload, store_formula_check, stored,
  store_formula_commit, authorize_proof_upload, store_proof_check, store_proof_commit, proof_bytes,
  confirm_owner_proof, confirm_proof,
}
use hive_sat.Coordinator.Machine.{
  Machine, Reachable, start, step, greet, lease, receive, resume, upload_formula, store_formula,
  upload_proof, store_proof, finish_proof, confirm, first,
}

abbrev conflict : List (List ℤ)
conflict = (pos 1 ∷ []) ∷ (negsuc 0 ∷ []) ∷ []

conflict_unsat : UnsatUnder conflict []
conflict_unsat v = elim (Bool-cases (v 1)) [ inl e ↦ rw e refl | inr e ↦ rw e refl ]

abbrev no_hash : List ℤ → ℕ
no_hash cube = 0

abbrev conflict_input : InitializeJobInput
conflict_input = record {
  job_id = 7;
  owner_digest = 11;
  upload_digest = 12;
  formula = record {
    hash = 13;
    variable_count = 1;
    clause_count = 2;
    literal_count = 2;
    encoded_bytes = 36;
    compressed_bytes = 20;
  };
  created_at = 1000;
  expires_at = 9000000;
}

abbrev hello : HelloMessage
hello = record {
  message_id = 41;
  session_id = 21;
  assignment_id = none;
  slot_ids = 1 ∷ [];
  capabilities = record {
    hardware_concurrency = 4;
    max_workers = 1;
    mobile = false;
    solver_version = "1.0";
    proof_generation = some true;
    calibrated_conflicts_per_second = none;
  };
}

abbrev refuted : ℕ → ℕ → ManifestKind → ResultMessage
refuted message_id lease_id kind = record {
  message_id = message_id;
  slot_id = 1;
  task_id = 0;
  lease_id = lease_id;
  result = unsat;
  evidence_sha256 = 71;
  manifest = record {
    formula_hash = 13;
    task_id = 0;
    cube = [];
    path_hash = 0;
    solver_version = 1;
    kind = kind;
  };
}

abbrev HasState : Machine → JobState → Type 0
HasState m s = state_of m.db.job ≡ some s
  where
    state_of : Option JobRow → Option JobState
    state_of none = none
    state_of (some j) = some j.state

-- The proof of the root waits for the verifier.
abbrev checked_reached : (m : Machine) × Reachable conflict no_hash conflict_input m
unfolding initialize store_formula_check authorize_upload store_formula_commit handle_hello
    store_profile resume_leases lease_work_for_slot grant next_task task processed_response
    record_processed prune_processed receive_result resume_result equal_cube authorize_proof_upload
    store_proof_check store_proof_commit proof_bytes
checked_reached = (
  _,
  step
      (step
        (step
          (step
            (step
              (step
                (step
                  (step
                    (step (step start (upload_formula 12 20 14 (new_job conflict_input) refl))
                      (store_formula 12 20 14 stored first))
                    (greet hello (31 ∷ []) 2000 refl))
                  (receive 21 (refuted 42 31 unsat_candidate) 3000))
                (resume _ first))
              (lease 21 1 32 4000))
            (upload_proof 32 100 71 400 72 5000 _ refl))
          (store_proof 32 100 71 400 72 5500 _ stored first))
        (receive 21 (refuted 43 32 (unsat_proof 32 71 100 400 2 [])) 6000))
      (resume _ first),
)

certified_reached :
    (m : Machine) × Reachable conflict no_hash conflict_input m
    × HasState m JobState.unsat_certified
unfolding initialize store_formula_check authorize_upload store_formula_commit handle_hello
    store_profile resume_leases lease_work_for_slot grant next_task task processed_response
    record_processed prune_processed receive_result resume_result equal_cube authorize_proof_upload
    store_proof_check store_proof_commit proof_bytes finish_unsat accept_unsat
    propagate_unsat_coverage propagate close_unsat_job
certified_reached = (
  _,
  step (checked_reached.1) (finish_proof _ valid_unsat 7000 first (λ e. conflict_unsat)),
  refl,
)

-- The verifier leaves the proof to the owner, who confirms it.
confirmed_reached :
    (m : Machine) × Reachable conflict no_hash conflict_input m
    × HasState m JobState.unsat_owner_verified
unfolding initialize store_formula_check authorize_upload store_formula_commit handle_hello
    store_profile resume_leases lease_work_for_slot grant next_task task processed_response
    record_processed prune_processed receive_result resume_result equal_cube authorize_proof_upload
    store_proof_check store_proof_commit proof_bytes finish_unsat confirm_owner_proof confirm_proof
    propagate_unsat_coverage propagate close_unsat_job
confirmed_reached = (
  _,
  step (step (checked_reached.1) (finish_proof _ owner_check_required 7000 first (λ e. cc)))
      (confirm 11 32 71 8000 (λ a e. (λ q. conflict_unsat, tt))),
  refl,
)

-- ===== src/Coordinator/Uploads/Budget.antt =====
-- The budget of proof bytes of a job in worker/job-coordinator.ts.
use hive_sat.Prelude.{
  ℕ, ◌≡◌, refl, ◌≤◌, ◌-◌, Bool, true, false, Option, none, some, ltb, leb, ltb→ge, leb→gt,
  if◌then◌else◌, arith, Bool-cases, Option-cases, inl, inr,
}
use hive_sat.Coordinator.State.{JobRow, LeaseRow, Db}
use hive_sat.Coordinator.Tables.{CubeTask, task, lease_by_id, proof_by_id, is_some}
use hive_sat.Coordinator.Uploads.{
  Code, proof_budget_exhausted, Result, committed, ok, err, ProofRoom, authorize_proof,
  authorize_proof_upload, proof_bytes, PutOutcome, stored, length_mismatch, unavailable,
  store_proof_commit, max_unsat_proof_compressed_bytes,
}

-- An authorized upload has the room that is left.
abbrev HasRoom : Db → Result ProofRoom → Type 0
HasRoom db (err c) = Unit
HasRoom db (ok r) =
    (proof_bytes db.proofs ≤ max_unsat_proof_compressed_bytes)
    × (r.maximum_compressed_bytes ≡ max_unsat_proof_compressed_bytes - proof_bytes db.proofs)

room_left :
    (db : Db) (refused : Bool) (t : CubeTask)
    → HasRoom db (
        if refused
        then err Code.invalid_state
        else if leb max_unsat_proof_compressed_bytes (proof_bytes db.proofs)
        then err proof_budget_exhausted
        else ok (record {
          task = t;
          maximum_compressed_bytes = max_unsat_proof_compressed_bytes - proof_bytes db.proofs;
        }))
room_left db true t = tt
room_left db false t =
    elim (Bool-cases (leb max_unsat_proof_compressed_bytes (proof_bytes db.proofs))) [
      | inl e ↦ rw e tt
      | inr e ↦
          rw e
            (omega (arith, leb→gt max_unsat_proof_compressed_bytes (proof_bytes db.proofs) e), refl)
    ]

authorize_proof-HasRoom :
    (id decompressed now : ℕ) (job : Option JobRow) (l : Option LeaseRow) (db : Db)
    → HasRoom db (authorize_proof id decompressed now job l db)
authorize_proof-HasRoom id decompressed now none l db = tt
authorize_proof-HasRoom id decompressed now (some job) none db = tt
authorize_proof-HasRoom id decompressed now (some job) (some l) db =
    elim (Option-cases (task l.task_id db.tasks)) [
      | inl e ↦ rw (HasRoom, e) tt
      | inr (t, e) ↦ rw (HasRoom, e) (room_left db _ _)
    ]

pub authorize_proof_upload-HasRoom :
    (id decompressed now : ℕ) (db : Db) → HasRoom db (authorize_proof_upload id decompressed now db)
unfolding authorize_proof_upload
authorize_proof_upload-HasRoom id decompressed now db =
    authorize_proof-HasRoom id decompressed now db.job (lease_by_id id db.leases) db

-- If the stored proofs of a job are within the budget, then they are after any upload of a proof that
-- the store has answered.
pub store_proof_commit-budget :
    (id length sha decompressed key now : ℕ) (t : CubeTask) (o : PutOutcome) (db : Db)
    → proof_bytes db.proofs ≤ max_unsat_proof_compressed_bytes
    → proof_bytes (store_proof_commit id length sha decompressed key now t o db).0.proofs
      ≤ max_unsat_proof_compressed_bytes
unfolding store_proof_commit proof_bytes
store_proof_commit-budget id length sha decompressed key now t length_mismatch db h = h
store_proof_commit-budget id length sha decompressed key now t unavailable db h = h
store_proof_commit-budget id length sha decompressed key now t stored db h =
    after (authorize_proof_upload id decompressed now db)
      (authorize_proof_upload-HasRoom id decompressed now db)
  where
    after :
        (r : Result ProofRoom)
        → HasRoom db r
        → proof_bytes (committed id length sha decompressed key now t r db).0.proofs
          ≤ max_unsat_proof_compressed_bytes
    after (err c) k = h
    after (ok room) k = elim (Bool-cases (ltb room.maximum_compressed_bytes length)) [
      | inl e ↦ simp e h
      | inr e ↦ simp e (elim (Bool-cases (is_some (proof_by_id id db.proofs))) [
        | inl f ↦ rw f h
        | inr f ↦ rw f (omega (arith, ltb→ge room.maximum_compressed_bytes length e, k.0, k.1))
      ])
    ]

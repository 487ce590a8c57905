-- ===== src/Coordinator/Uploads/Answers.antt =====
-- The job's own operations of worker/job-coordinator.ts keep the meaning of the answers; an owner's
-- confirmation is taken as a refutation of the cube that the proof is about.
use hive_sat.Prelude.{
  [], ℕ, ◌≡◌, refl, true, not, ◌&&◌, ◌||◌, List, Option, none, some, leb, ltb, ◌==◌, ==_iff, ℤ,
  Bool-cases, inl, inr, All, All-map, &&-true,
}
use hive_sat.Cnf.{UnsatUnder}
use hive_sat.Coordinator.State.{JobRow, TaskState, TaskRow, ProofArtifactRow, Db}
use hive_sat.Coordinator.Tables.{is_job_cancelled, proof_by_id, model_artifact, is_some, CubeTask}
use hive_sat.Coordinator.Answers.{Sound, JobSound, TasksSound-demote, TasksSound-update}
use hive_sat.Coordinator.Coverage.Answers.{propagate_unsat_coverage-Sound}
use hive_sat.Coordinator.Uploads.{
  InitializeJobInput, initialize, initialize_job, confirm_proof, confirm, confirm_owner_proof,
  is_owner_check, cancel_all, cancel_job, cancel, rotate, rotate_owner_token, queue_job, awaits,
  Result, ok, err, ProofRoom, is_ok, authorize_model_upload, authorize_proof_upload,
  store_model_commit, committed, store_proof_commit, record_proof_upload, PutOutcome, stored,
  length_mismatch, unavailable, store_formula_commit,
}

module _ (formula : List (List ℤ)) (upload : Type 0) (watched : List TaskRow) where
  confirm_proof-Sound :
      (p : ProofArtifactRow) (now : ℕ) (db : Db)
      → All (λ t. t.task_id ≡ p.task_id → UnsatUnder formula t.assumptions) db.tasks
      → Sound formula upload watched db
      → Sound formula upload watched (confirm_proof p now db).0
  unfolding confirm_proof
  confirm_proof-Sound p now db u s =
      propagate_unsat_coverage-Sound formula upload watched _ now _ (record {
        tasks =
            TasksSound-update formula watched _ _ (λ t. (refl, refl)) db.tasks
              (All-map (λ t k h q. k ((==_iff t.task_id p.task_id).0 (&&-true _ _ h).0)) db.tasks u)
              s.tasks;
        job = s.job;
      })

  confirm-Sound :
      (owner sha now : ℕ) (job : Option JobRow) (p : Option ProofArtifactRow) (db : Db)
      → ((a : ProofArtifactRow)
          → p ≡ some a
          → All (λ t. t.task_id ≡ a.task_id → UnsatUnder formula t.assumptions) db.tasks)
      → Sound formula upload watched db
      → Sound formula upload watched (confirm owner sha now job p db).0
  confirm-Sound owner sha now none p db u s = s
  confirm-Sound owner sha now (some job) none db u s = s
  confirm-Sound owner sha now (some job) (some p) db u s =
      elim (Bool-cases (owner == job.owner_digest)) [
        | inr e ↦ rw e s
        | inl e ↦
            rw e
              (elim (Bool-cases
                (is_owner_check p.verification_status && sha == p.artifact_sha256)) [
                  | inr f ↦ rw f s
                  | inl f ↦ rw f (confirm_proof-Sound p now db (u p refl) s)
                ])
      ]

  -- The owner's confirmation is right about the proof that it names.
  pub confirm_owner_proof-Sound :
      (owner artifact_id sha now : ℕ) (db : Db)
      → ((a : ProofArtifactRow)
          → proof_by_id artifact_id db.proofs ≡ some a
          → All (λ t. t.task_id ≡ a.task_id → UnsatUnder formula t.assumptions) db.tasks)
      → Sound formula upload watched db
      → Sound formula upload watched (confirm_owner_proof owner artifact_id sha now db).0
  unfolding confirm_owner_proof
  confirm_owner_proof-Sound owner artifact_id sha now db u s =
      confirm-Sound owner sha now db.job (proof_by_id artifact_id db.proofs) db u s

  cancel_all-Sound :
      (job : JobRow) (now : ℕ) (db : Db)
      → Sound formula upload watched db
      → Sound formula upload watched (cancel_all job now db)
  unfolding cancel_all
  cancel_all-Sound job now db s = record {
    tasks =
        TasksSound-demote formula watched (λ t. true)
          (λ t. record t { state = TaskState.cancelled; active_lease_id = none; updated_at = now })
          (λ t. (refl, refl)) (λ t. refl) db.tasks s.tasks;
    job = record { unsat = λ q. absurd (cc); sat = λ q. absurd (cc); uploading = λ q. absurd (cc) };
  }

  pub cancel-Sound :
      (owner now : ℕ) (db : Db)
      → Sound formula upload watched db
      → Sound formula upload watched (cancel owner now db).0
  unfolding cancel
  cancel-Sound owner now db s = job db.job
    where
      job : (j : Option JobRow) → Sound formula upload watched (cancel_job owner now j db).0
      job none = s
      job (some j) = elim (Bool-cases (owner == j.owner_digest)) [
        | inr e ↦ rw e s
        | inl e ↦ rw e (elim (Bool-cases (is_job_cancelled j.state)) [
          | inl c ↦ rw c s
          | inr c ↦ rw c (cancel_all-Sound j now db s)
        ])
      ]

  pub rotate_owner_token-Sound :
      (owner next now : ℕ) (db : Db)
      → Sound formula upload watched db
      → Sound formula upload watched (rotate_owner_token owner next now db).0
  unfolding rotate_owner_token
  rotate_owner_token-Sound owner next now db s = job db.job s.job
    where
      job :
          (j : Option JobRow)
          → JobSound formula upload j
          → Sound formula upload watched (rotate owner next now j db).0
      job none k = s
      job (some j) k = elim (Bool-cases (leb j.expires_at now || not (owner == j.owner_digest))) [
        | inl e ↦ rw e s
        | inr e ↦ rw e (record {
          tasks = s.tasks;
          job = record { unsat = k.unsat; sat = k.sat; uploading = k.uploading };
        })
      ]

  queue_job-JobSound :
      (digest bytes key : ℕ) (j : Option JobRow)
      → JobSound formula upload j
      → JobSound formula upload (queue_job digest bytes key j)
  queue_job-JobSound digest bytes key none k = tt
  queue_job-JobSound digest bytes key (some j) k = elim (Bool-cases (awaits digest (some j))) [
    | inr e ↦ rw e k
    | inl e ↦
        rw e (record {
          unsat = λ q. absurd (cc);
          sat = λ q. absurd (cc);
          uploading = λ q. absurd (cc);
        })
  ]

  pub store_formula_commit-Sound :
      (digest length key : ℕ) (o : PutOutcome) (db : Db)
      → Sound formula upload watched db
      → Sound formula upload watched (store_formula_commit digest length key o db).0
  unfolding store_formula_commit
  store_formula_commit-Sound digest length key length_mismatch db s = s
  store_formula_commit-Sound digest length key unavailable db s = s
  store_formula_commit-Sound digest length key stored db s =
      elim (Bool-cases (awaits digest db.job)) [
        | inr e ↦ rw e s
        | inl e ↦
            rw e
              (record { tasks = s.tasks; job = queue_job-JobSound digest length key db.job s.job })
      ]

  -- What the uploads of models and proofs write is no answer.
  pub store_model_commit-Sound :
      (lease_id length key now : ℕ) (o : PutOutcome) (db : Db)
      → Sound formula upload watched db
      → Sound formula upload watched (store_model_commit lease_id length key now o db).0
  unfolding store_model_commit
  store_model_commit-Sound lease_id length key now length_mismatch db s = s
  store_model_commit-Sound lease_id length key now unavailable db s = s
  store_model_commit-Sound lease_id length key now stored db s =
      elim (Bool-cases (is_ok (authorize_model_upload lease_id now db))) [
        | inr e ↦ rw e s
        | inl e ↦ rw e (elim (Bool-cases (is_some (model_artifact lease_id db.models))) [
          | inl f ↦ rw f s
          | inr f ↦ rw f (record { tasks = s.tasks; job = s.job })
        ])
      ]

  committed-Sound :
      (lease_id length sha decompressed key now : ℕ) (t : CubeTask) (r : Result ProofRoom) (db : Db)
      → Sound formula upload watched db
      → Sound formula upload watched (committed lease_id length sha decompressed key now t r db).0
  committed-Sound lease_id length sha decompressed key now t (err c) db s = s
  committed-Sound lease_id length sha decompressed key now t (ok room) db s =
      elim (Bool-cases (ltb room.maximum_compressed_bytes length)) [
        | inl e ↦ rw e s
        | inr e ↦ rw e (elim (Bool-cases (is_some (proof_by_id lease_id db.proofs))) [
          | inl f ↦ rw f s
          | inr f ↦ rw f (record { tasks = s.tasks; job = s.job })
        ])
      ]

  pub store_proof_commit-Sound :
      (lease_id length sha decompressed key now : ℕ) (t : CubeTask) (o : PutOutcome) (db : Db)
      → Sound formula upload watched db
      → Sound formula upload watched
          (store_proof_commit lease_id length sha decompressed key now t o db).0
  unfolding store_proof_commit
  store_proof_commit-Sound lease_id length sha decompressed key now t length_mismatch db s = s
  store_proof_commit-Sound lease_id length sha decompressed key now t unavailable db s = s
  store_proof_commit-Sound lease_id length sha decompressed key now t stored db s =
      committed-Sound lease_id length sha decompressed key now t
        (authorize_proof_upload lease_id decompressed now db) db s

  pub record_proof_upload-Sound :
      (lease_id sha compressed decompressed now : ℕ) (db : Db)
      → Sound formula upload watched db
      → Sound formula upload watched
          (record_proof_upload lease_id sha compressed decompressed now db).0
  unfolding record_proof_upload
  record_proof_upload-Sound lease_id sha compressed decompressed now db s =
      after (authorize_proof_upload lease_id decompressed now db) refl
    where
      after :
          (r : Result ProofRoom)
          → authorize_proof_upload lease_id decompressed now db ≡ r
          → Sound formula upload watched
              (record_proof_upload lease_id sha compressed decompressed now db).0
      after (err c) e = rw (e, record_proof_upload) s
      after (ok room) e =
          rw (e, record_proof_upload)
            (elim (Bool-cases (compressed == 0 || ltb room.maximum_compressed_bytes compressed)) [
              | inl f ↦ rw f s
              | inr f ↦ rw f (elim (Bool-cases (is_some (proof_by_id lease_id db.proofs))) [
                | inl g ↦ rw g s
                | inr g ↦ rw g (record { tasks = s.tasks; job = s.job })
              ])
            ])

  -- A new job has one task, the root.
  pub initialize-Sound :
      (i : InitializeJobInput) (db : Db)
      → Sound formula upload watched db
      → db.tasks ≡ []
      → watched ≡ []
      → upload
      → Sound formula upload watched (initialize i db).0
  unfolding initialize
  initialize-Sound i db s e w u = job db.job
    where
      job : (j : Option JobRow) → Sound formula upload watched (initialize_job i j db).0
      job none =
          rw (e, w)
            (record {
              tasks = (
                (record { refuted = λ q. absurd (cc); root_cube = λ q. refl; nonzero = refl }, tt),
                (tt, tt),
                tt,
              );
              job = record { unsat = λ q. absurd (cc); sat = λ q. absurd (cc); uploading = λ q. u };
            })
      job (some j) = elim (Bool-cases (j.job_id == i.job_id && j.formula_hash == i.formula.hash)) [
        | inl f ↦ rw f s
        | inr f ↦ rw f s
      ]

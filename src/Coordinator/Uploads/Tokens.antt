-- ===== src/Coordinator/Uploads/Tokens.antt =====
-- The upload token of a job in worker/job-coordinator.ts.
use hive_sat.Prelude.{◌≢◌, ℕ, ◌≡◌, refl, Option, none, some, true, false, Bool-cases, inl, inr}
use hive_sat.Coordinator.State.{JobRow, Db}
use hive_sat.Coordinator.Tables.{is_uploading}
use hive_sat.Coordinator.Uploads.{
  authorize_job_upload, Code, ok, err, PutOutcome, awaits, queue_job, store_formula_check,
  store_formula_commit, authorize_upload,
}

queue_job-Closed :
    (digest length key : ℕ) (j : Option JobRow)
    → awaits digest j ≡ true
    → (job : JobRow) × (queue_job digest length key j ≡ some job) × (is_uploading job.state ≡ false)
queue_job-Closed digest length key none h = absurd (cc)
queue_job-Closed digest length key (some j) h = rw h (_, refl, refl)

-- After an upload was taken over, the job is not UPLOADING.
pub commit-Closed :
    (digest length key bytes : ℕ) (db : Db)
    → (store_formula_commit digest length key PutOutcome.stored db).1 ≡ ok bytes
    → (job : JobRow) × ((store_formula_commit digest length key PutOutcome.stored db).0.job
        ≡ some job)
      × (is_uploading job.state ≡ false)
unfolding store_formula_commit
commit-Closed digest length key bytes db = elim (Bool-cases (awaits digest db.job)) [
  | inl e ↦ rw e (λ h. queue_job-Closed digest length key db.job e)
  | inr e ↦ rw e (λ h. absurd (cc))
]

-- A job that is not UPLOADING, or gone, takes no upload.
pub closed_refuses :
    (digest length key : ℕ) (db : Db)
    → ((job : JobRow) → db.job ≡ some job → is_uploading job.state ≡ false)
    → ((job : JobRow) → store_formula_check digest length db ≢ ok job)
      × (store_formula_commit digest length key PutOutcome.stored db ≡ (db, err Code.invalid_state))
unfolding store_formula_check store_formula_commit authorize_upload
closed_refuses digest length key db c =
    (refused db.job refl, rw (no_longer db.job refl, store_formula_commit) refl)
  where
    no_longer : (o : Option JobRow) → db.job ≡ o → awaits digest o ≡ false
    no_longer none e = refl
    no_longer (some j) e = rw (c j e) refl

    refused :
        (o : Option JobRow)
        → db.job ≡ o
        → (job : JobRow) → store_formula_check digest length (record db { job = o }) ≢ ok job
    refused none e job h = absurd (cc)
    refused (some j) e job h = unequal (rw (c j e) refl) h
      where
        unequal :
            authorize_job_upload digest (some j) ≡ err Code.invalid_state
            → store_formula_check digest length (record db { job = some j }) ≢ ok job
        unequal k = rw (k, store_formula_check) (λ q. absurd (cc))

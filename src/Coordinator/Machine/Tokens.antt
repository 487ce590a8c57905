-- ===== src/Coordinator/Machine/Tokens.antt =====
-- The upload token of a job in worker/job-coordinator.ts, whatever its handlers do.
use hive_sat.Prelude.{ℕ, ◌≡◌, ◌≢◌, List, Option, none, some, false, Bool-cases, inl, inr, ℤ, arith}
use hive_sat.Coordinator.State.{JobRow}
use hive_sat.Coordinator.Tables.{is_uploading}
use hive_sat.Coordinator.Answers.{JobSound}
use hive_sat.Coordinator.Uploads.{
  InitializeJobInput, Code, ok, err, PutOutcome, store_formula_check, store_formula_commit,
}
use hive_sat.Coordinator.Uploads.Answers.{store_formula_commit-Sound}
use hive_sat.Coordinator.Uploads.Tokens.{commit-Closed, closed_refuses}
use hive_sat.Coordinator.Machine.{Machine, Wait, storing_formula, Picks, held, Reachable, Steps}
use hive_sat.Coordinator.Machine.Answers.{drop_picked, Steps-Sound, Reachable-Sound}

module _ (formula : List (List ℤ)) (path_hash : List ℤ → ℕ) where
  close_job :
      (o : Option JobRow) (job : JobRow)
      → JobSound formula (Unit {0}) o
      → o ≡ some job
      → is_uploading job.state ≡ false
      → JobSound formula ⊥ o
  close_job none job k e c = tt
  close_job (some j) job k e c = record {
    unsat = k.unsat;
    sat = k.sat;
    uploading = λ q. absurd (ground (arith, e, c, q));
  }

  uploading_false :
      (o : Option JobRow)
      → JobSound formula ⊥ o
      → (job : JobRow) → o ≡ some job
      → is_uploading job.state ≡ false
  uploading_false none k job e = absurd (cc)
  uploading_false (some j) k job e = elim (Bool-cases (is_uploading job.state)) [
    | inr c ↦ c
    | inl c ↦ absurd (k.uploading (ground (arith, e, c)))
  ]

  -- The formula of a job is stored once. If, in a state that the handlers reach from a new job, an upload
  -- that waits for the store is taken over, then, whatever the handlers do from there on, no upload
  -- passes the tests before the wait any more, and one that the store answers is refused and changes
  -- nothing, also if it passed these tests before. The premises on the steps are those of `Step`.
  pub store_formula_commit-once :
      (i : InitializeJobInput) (m later : Machine) (rest : List Wait)
      (digest length key bytes other_digest other_length other_key : ℕ)
      → Reachable formula path_hash i m
      → Picks (storing_formula digest length key) m.waits rest
      → (store_formula_commit digest length key PutOutcome.stored m.db).1 ≡ ok bytes
      → Steps formula path_hash
          (record {
            db = (store_formula_commit digest length key PutOutcome.stored m.db).0;
            waits = rest;
          })
          later
      → ((job : JobRow) → store_formula_check other_digest other_length later.db ≢ ok job)
        × (store_formula_commit other_digest other_length other_key PutOutcome.stored later.db
            ≡ (later.db, err Code.invalid_state))
  store_formula_commit-once i m later rest digest length key bytes other_digest other_length
        other_key r k h run =
      let (job, e, c) = commit-Closed digest length key bytes m.db h in
      let before = Reachable-Sound formula path_hash (Unit {0}) tt r in
      let after =
        store_formula_commit-Sound formula (Unit {0}) (held rest) digest length key
          PutOutcome.stored m.db (drop_picked formula (Unit {0}) m.db k before).1 in
      let closed =
        Steps-Sound formula ⊥ path_hash run
          (record { tasks = after.tasks; job = close_job _ job after.job e c }) in
      closed_refuses other_digest other_length other_key later.db
        (uploading_false later.db.job closed.job)

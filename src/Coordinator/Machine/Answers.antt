-- ===== src/Coordinator/Machine/Answers.antt =====
-- The answers that a job of worker/job-coordinator.ts ever gives are right.
use hive_sat.Prelude.{true, ℕ, ◌≡◌, refl, subst, List, [], ◌∷◌, ◌++◌, some, All, ℤ}
use hive_sat.Cnf.{Unsat}
use hive_sat.Coordinator.State.{JobState, JobRow, TaskRow, Db}
use hive_sat.Coordinator.Answers.{Satisfiable, SameCube, JobSound, JobFacts, Sound}
use hive_sat.Coordinator.Leases.Answers.{
  lease_work_for_slot-Sound, rollback_undelivered_lease-Sound, close_session-Sound,
  alarm_expiry-Sound, handle_yield-Sound, handle_session_heartbeat-Sound,
}
use hive_sat.Coordinator.Hello.Soundness.{
  open_session-Sound, handle_hello-Sound, dispatch_pending_work-Sound,
}
use hive_sat.Coordinator.Split.Answers.{handle_split-Sound, issue_split_permits-Sound}
use hive_sat.Coordinator.Results.{
  Begun, answered, hash_path, verify_sat, verify_unsat, receive_result, resume_result,
}
use hive_sat.Coordinator.Results.Answers.{
  BegunSound, receive_result-BegunSound, resume_result-BegunSound, finish_sat-Sound,
  finish_unsat-Sound,
}
use hive_sat.Coordinator.Uploads.{InitializeJobInput}
use hive_sat.Coordinator.Uploads.Answers.{
  initialize-Sound, confirm_owner_proof-Sound, cancel-Sound, rotate_owner_token-Sound,
  store_formula_commit-Sound, store_model_commit-Sound, store_proof_commit-Sound,
  record_proof_upload-Sound,
}
use hive_sat.Coordinator.Machine.{
  Machine, empty_db, Wait, take_up, Picks, first, later, rows_of, held, Step, lease, rollback,
  close, alarm, yield, heartbeat, split, greet, ask_directory, refuse_hello, greet_activated,
  dispatch, permit, receive, resume, finish_model, finish_proof, upload_formula, store_formula,
  upload_model, store_model, upload_proof, store_proof, record_proof, confirm, cancel_job, rotate,
  Reachable, start, step, Steps, stay, on,
}

module _ (formula : List (List ℤ)) (upload : Type 0) where
  abbrev pub MachineSound : Machine → Type 0
  MachineSound m = Sound formula upload (held m.waits) m.db

  take_up-Sound :
      (ws : List Wait) (r : Db × Begun)
      → BegunSound formula upload (held ws) r
      → Sound formula upload (held (take_up r.1 ws)) r.0
  take_up-Sound ws (db, answered r) s = s
  take_up-Sound ws (db, hash_path r) s = s
  take_up-Sound ws (db, verify_sat p) s = s
  take_up-Sound ws (db, verify_unsat p) s = s

  both : (P : TaskRow → Type 0) (xs ys : List TaskRow) → All P xs → All P ys → All P (xs ++ ys)
  both P [] ys h k = k
  both P (x ∷ xs) ys (h, hs) k = (h, both P xs ys hs k)

  parts : (P : TaskRow → Type 0) (xs ys : List TaskRow) → All P (xs ++ ys) → All P xs × All P ys
  parts P [] ys h = (tt, h)
  parts P (x ∷ xs) ys (h, hs) = let (a, b) = parts P xs ys hs in ((h, a), b)

  -- What holds of the rows of the waiting handlers holds of the picked one's and the others'.
  Picks-All :
      {w : Wait} {ws rest : List Wait} (P : TaskRow → Type 0)
      → Picks w ws rest
      → All P (held ws)
      → All P (rows_of w) × All P (held rest)
  Picks-All P (first {w} {ws}) h = parts P (rows_of w) (held ws) h
  Picks-All P (later {w} {v} {ws} {rest} k) h =
      let (a, b) = parts P (rows_of v) (held ws) h in
      let (x, y) = Picks-All P k b in (x, both P (rows_of v) (held rest) a y)

  pub drop_picked :
      {w : Wait} {ws rest : List Wait} (db : Db)
      → Picks w ws rest
      → Sound formula upload (held ws) db
      → All (SameCube db.tasks) (rows_of w) × Sound formula upload (held rest) db
  drop_picked db k s =
      let (same, others) = Picks-All (SameCube db.tasks) k s.tasks.2 in
      (same, record { tasks = (s.tasks.0, s.tasks.1, others); job = s.job })

  module _ (path_hash : List ℤ → ℕ) where
    pub Step-Sound : {a b : Machine} → Step formula path_hash a b → MachineSound a → MachineSound b
    Step-Sound (lease {db} {ws} session slot id now) s =
        lease_work_for_slot-Sound formula upload (held ws) session slot id now db s
    Step-Sound (rollback {db} {ws} id now) s =
        rollback_undelivered_lease-Sound formula upload (held ws) id now db s
    Step-Sound (close {db} {ws} session now) s =
        close_session-Sound formula upload (held ws) session now db s
    Step-Sound (alarm {db} {ws} now) s = alarm_expiry-Sound formula upload (held ws) now db s
    Step-Sound (yield {db} {ws} session m now) s =
        handle_yield-Sound formula upload (held ws) session m now db s
    Step-Sound (heartbeat {db} {ws} session m now) s =
        handle_session_heartbeat-Sound formula upload (held ws) session m now db s
    Step-Sound (split {db} {ws} session m positive negative now sessions z fp fn ne) s =
        handle_split-Sound formula upload (held ws) session m positive negative now sessions db z fp
          fn ne s
    Step-Sound (greet {db} {ws} m ids now e) s =
        handle_hello-Sound formula upload (held ws) true m ids now db s
    Step-Sound (ask_directory {db} {ws} m e q) s = s
    Step-Sound (refuse_hello {db} {ws} {rest} m k) s = (drop_picked db k s).1
    Step-Sound (greet_activated {db} {ws} {rest} m ids now k) s =
        open_session-Sound formula upload (held rest) m ids now db (drop_picked db k s).1
    Step-Sound (dispatch {db} {ws} delivered work permit_ids now sessions) s =
        dispatch_pending_work-Sound formula upload (held ws) delivered work permit_ids now sessions
          db s
    Step-Sound (permit {db} {ws} delivered ids now sessions) s =
        issue_split_permits-Sound formula upload (held ws) delivered ids now sessions db s
    Step-Sound (receive {db} {ws} session m now) s =
        take_up-Sound ws (db, receive_result session m now db)
          (receive_result-BegunSound formula upload (held ws) session m now db s)
    Step-Sound (resume {db} {ws} {rest} r k) s =
        let (same, s') = drop_picked db k s in
        take_up-Sound rest (resume_result path_hash r db) (
          resume_result-BegunSound formula upload (held rest) path_hash r db
            (record { tasks = (s'.tasks.0, s'.tasks.1, (same.0, s'.tasks.2)); job = s'.job }))
    Step-Sound (finish_model {db} {ws} {rest} p v now k f) s =
        finish_sat-Sound formula upload (held rest) p v now db f (drop_picked db k s).1
    Step-Sound (finish_proof {db} {ws} {rest} p v now k u) s =
        let (same, s') = drop_picked db k s in
        finish_unsat-Sound formula upload (held rest) p v now db u same.0 s'
    Step-Sound (upload_formula {db} {ws} digest length key job e) s = s
    Step-Sound (store_formula {db} {ws} {rest} digest length key o k) s =
        store_formula_commit-Sound formula upload (held rest) digest length key o db
          (drop_picked db k s).1
    Step-Sound (upload_model {db} {ws} lease_id length key now t e) s = s
    Step-Sound (store_model {db} {ws} {rest} lease_id length key now o k) s =
        store_model_commit-Sound formula upload (held rest) lease_id length key now o db
          (drop_picked db k s).1
    Step-Sound (upload_proof {db} {ws} lease_id length sha decompressed key now t e) s = s
    Step-Sound (store_proof {db} {ws} {rest} lease_id length sha decompressed key now t o k) s =
        store_proof_commit-Sound formula upload (held rest) lease_id length sha decompressed key now
          t o db (drop_picked db k s).1
    Step-Sound (record_proof {db} {ws} lease_id sha compressed decompressed now) s =
        record_proof_upload-Sound formula upload (held ws) lease_id sha compressed decompressed now
          db s
    Step-Sound (confirm {db} {ws} owner id sha now right) s =
        confirm_owner_proof-Sound formula upload (held ws) owner id sha now db right s
    Step-Sound (cancel_job {db} {ws} owner now) s =
        cancel-Sound formula upload (held ws) owner now db s
    Step-Sound (rotate {db} {ws} owner next now) s =
        rotate_owner_token-Sound formula upload (held ws) owner next now db s

    pub Steps-Sound :
        {a b : Machine} → Steps formula path_hash a b → MachineSound a → MachineSound b
    Steps-Sound stay s = s
    Steps-Sound (on r k) s = Step-Sound k (Steps-Sound r s)

module _ (formula : List (List ℤ)) (path_hash : List ℤ → ℕ) where
  pub Reachable-Sound :
      {i : InitializeJobInput} {m : Machine} (upload : Type 0)
      → upload
      → Reachable formula path_hash i m
      → MachineSound formula upload m
  Reachable-Sound upload u start =
      initialize-Sound formula upload [] _ empty_db (record { tasks = (tt, tt, tt); job = tt }) refl
        refl u
  Reachable-Sound upload u (step r k) =
      Step-Sound formula upload path_hash k (Reachable-Sound upload u r)

  -- In every state that the handlers reach from a new job, whatever their order, and however many of
  -- them wait for the hash of a path, a verifier, the directory or a store while others run: the job
  -- is SAT_VERIFIED only if the formula has a model, and UNSAT_CERTIFIED or UNSAT_OWNER_VERIFIED only
  -- if it has none. The premises are those of the steps: a verdict VALID_SAT or VALID_UNSAT is right
  -- of the formula and the waiting cube, an owner confirms only a right proof, and the ids and the
  -- literal of a split are fresh and not 0. The clean-up of an
  -- expired job, which deletes everything, is not among the handlers.
  pub answer-IsRight :
      (i : InitializeJobInput) (m : Machine) (j : JobRow)
      → Reachable formula path_hash i m
      → m.db.job ≡ some j
      → (j.state ≡ JobState.sat_verified → Satisfiable formula)
        × (j.state ≡ JobState.unsat_certified → Unsat formula)
        × (j.state ≡ JobState.unsat_owner_verified → Unsat formula)
  answer-IsRight i m j r e =
      let k : JobFacts formula (Unit {0}) j =
        subst (JobSound formula (Unit {0})) e (Reachable-Sound (Unit {0}) tt r).job in
      ((λ q. k.sat (rw q refl)), (λ q. k.unsat (rw q refl)), (λ q. k.unsat (rw q refl)))

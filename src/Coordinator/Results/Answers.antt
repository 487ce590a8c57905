-- ===== src/Coordinator/Results/Answers.antt =====
-- A result changes the answers of worker/job-coordinator.ts only as its verifier said.
use hive_sat.Prelude.{
  ℕ, ◌≡◌, refl, sym, subst, Bool, true, false, not, ◌&&◌, ◌||◌, List, ◌∷◌, Option, none, some,
  find?, any, leb, ◌==◌, ==_iff, ℤ, Bool-cases, Option-cases, inl, inr, All-map,
}
use hive_sat.Cnf.{UnsatUnder}
use hive_sat.Coordinator.State.{
  JobState, JobRow, TaskRow, LeaseRow, Db, ManifestKind, sat_model, unsat_candidate, unsat_proof,
  ResultKind, sat, unsat, ResultMessage,
}
use hive_sat.Coordinator.Tables.{
  holds, is_active, is_closed, is_cancelled, is_verifying_sat, task, processed_response,
  record_processed,
}
use hive_sat.Coordinator.Answers.{
  Sound, SameCube, Satisfiable, watch, unwatch, JobSound, TasksSound-demote, TasksSound-update,
}
use hive_sat.Coordinator.Coverage.{set_job_state}
use hive_sat.Coordinator.Coverage.Answers.{propagate_unsat_coverage-Sound}
use hive_sat.Coordinator.Leases.Answers.{release_quarantined_session_leases-Sound}
use hive_sat.Coordinator.Results.{
  Pending, Begun, answered, verify_sat, verify_unsat, begin_sat, take_candidate, begin_unsat,
  artifact_matches, begin_unsat_result, begin_sat_result, begin_kind, is_stale, read_leased,
  names_task, names_cube, Reading, hash_path, receive_result, resume_result, SatVerdict, valid_sat,
  invalid_model, UnsatVerdict, valid_unsat, owner_check_required, invalid_proof, accept_sat,
  reject_formula, reopen_task, reopen_sat, settle_sat, discard_model, finish_sat, accept_unsat,
  reopen_unsat, reject_proof, settle_unsat, discard_proof, finish_unsat, close_verification,
}

module _ (formula : List (List ℤ)) (upload : Type 0) (watched : List TaskRow) where
  begin_sat-Sound :
      (session : ℕ) (m : ResultMessage) (t : TaskRow) (stale : Bool) (now : ℕ) (db : Db)
      → Sound formula upload watched db
      → Sound formula upload watched (begin_sat session m t stale now db)
  unfolding begin_sat
  begin_sat-Sound session m t stale now db s = record {
    tasks = TasksSound-demote formula watched _ _ (λ r. (refl, refl)) (λ r. refl) db.tasks s.tasks;
    job = s.job;
  }

  take_candidate-Sound :
      (session : ℕ) (m : ResultMessage) (l : LeaseRow) (t : TaskRow) (stale : Bool) (now : ℕ)
      (db : Db)
      → Sound formula upload watched db
      → Sound formula upload watched (take_candidate session m l t stale now db)
  unfolding take_candidate
  take_candidate-Sound session m l t stale now db s =
      elim (Bool-cases (
        is_active l.status
        && holds t.active_lease_id l.lease_id
        && not (is_verifying_sat t.state))) [
          | inl e ↦ rw e (record {
            tasks =
                TasksSound-demote formula watched _ _ (λ r. (refl, refl)) (λ r. refl) db.tasks
                  s.tasks;
            job = s.job;
          })
          | inr e ↦ rw e (record { tasks = s.tasks; job = s.job })
        ]

  begin_unsat-Sound :
      (l : LeaseRow) (t : TaskRow) (now : ℕ) (db : Db)
      → Sound formula upload watched db
      → Sound formula upload watched (begin_unsat l t now db)
  unfolding begin_unsat
  begin_unsat-Sound l t now db s = record {
    tasks = TasksSound-demote formula watched _ _ (λ r. (refl, refl)) (λ r. refl) db.tasks s.tasks;
    job = s.job;
  }

-- The database is sound, and what the handler holds across the wait is watched.
abbrev pub BegunSound : List (List ℤ) → Type 0 → List TaskRow → Db × Begun → Type 0
BegunSound formula upload watched (db, answered r) = Sound formula upload watched db
BegunSound formula upload watched (db, hash_path r) = Sound formula upload (r.task ∷ watched) db
BegunSound formula upload watched (db, verify_sat p) = Sound formula upload (p.task ∷ watched) db
BegunSound formula upload watched (db, verify_unsat p) = Sound formula upload (p.task ∷ watched) db

module _ (formula : List (List ℤ)) (upload : Type 0) (watched : List TaskRow) where
  begin_unsat_result-BegunSound :
      (k : ManifestKind) (session : ℕ) (m : ResultMessage) (l : LeaseRow) (t : TaskRow)
      (stale : Bool) (now : ℕ) (db : Db)
      → Sound formula upload (t ∷ watched) db
      → BegunSound formula upload watched (begin_unsat_result k session m l t stale now db)
  unfolding record_processed
  begin_unsat_result-BegunSound (sat_model _ _ _ _) session m l t stale now db s =
      unwatch formula upload watched t db s
  begin_unsat_result-BegunSound unsat_candidate session m l t stale now db s =
      elim (Bool-cases t.proof_required) [
        | inl e ↦ simp e (unwatch formula upload watched t db s)
        | inr e ↦ simp e (
            let s' =
              unwatch formula upload watched t _
                (take_candidate-Sound formula upload (t ∷ watched) session m l t stale now db s) in
            record { tasks = s'.tasks; job = s'.job })
      ]
  begin_unsat_result-BegunSound (unsat_proof id sha c d n ids) session m l t stale now db s =
      elim (Bool-cases (
        t.proof_required
        && id == l.lease_id
        && any (artifact_matches id t.task_id sha c d) db.proofs)) [
          | inl e ↦ rw e (begin_unsat-Sound formula upload (t ∷ watched) l t now db s)
          | inr e ↦ rw e (unwatch formula upload watched t db s)
        ]

  begin_sat_result-BegunSound :
      (k : ManifestKind) (session : ℕ) (m : ResultMessage) (job : JobRow) (t : TaskRow)
      (stale : Bool) (now : ℕ) (db : Db)
      → Sound formula upload (t ∷ watched) db
      → BegunSound formula upload watched (begin_sat_result k session m job t stale now db)
  begin_sat_result-BegunSound (sat_model id sha bytes n) session m job t stale now db s =
      elim (Bool-cases (id == m.lease_id && n == job.variable_count)) [
        | inl e ↦ rw e (begin_sat-Sound formula upload (t ∷ watched) session m t stale now db s)
        | inr e ↦ rw e (unwatch formula upload watched t db s)
      ]
  begin_sat_result-BegunSound unsat_candidate session m job t stale now db s =
      unwatch formula upload watched t db s
  begin_sat_result-BegunSound (unsat_proof _ _ _ _ _ _) session m job t stale now db s =
      unwatch formula upload watched t db s

  begin_kind-BegunSound :
      (k : ResultKind) (session : ℕ) (m : ResultMessage) (job : JobRow) (l : LeaseRow) (t : TaskRow)
      (stale : Bool) (now : ℕ) (db : Db)
      → Sound formula upload (t ∷ watched) db
      → BegunSound formula upload watched (begin_kind k session m job l t stale now db)
  begin_kind-BegunSound sat session m job l t stale now db s =
      begin_sat_result-BegunSound m.manifest.kind session m job t stale now db s
  begin_kind-BegunSound unsat session m job l t stale now db s =
      begin_unsat_result-BegunSound m.manifest.kind session m l t stale now db s

  read_leased-BegunSound :
      (session : ℕ) (m : ResultMessage) (now : ℕ) (l : LeaseRow) (t : Option TaskRow)
      (job : Option JobRow) (db : Db)
      → task m.task_id db.tasks ≡ t
      → Sound formula upload watched db
      → BegunSound formula upload watched (db, read_leased session m now l t job)
  read_leased-BegunSound session m now l none job db f s = s
  read_leased-BegunSound session m now l (some t) none db f s = s
  read_leased-BegunSound session m now l (some t) (some job) db f s =
      elim (Bool-cases (leb job.expires_at now || is_closed job.state || is_cancelled t.state)) [
        | inl e ↦ rw e s
        | inr e ↦ rw e (elim (Bool-cases (names_task m.manifest job t)) [
          | inr b ↦ rw b s
          | inl b ↦ rw b (watch formula upload watched m.task_id t db f s)
        ])
      ]

  -- What runs before the hash changes nothing, and the row that it keeps is watched.
  pub receive_result-BegunSound :
      (session : ℕ) (m : ResultMessage) (now : ℕ) (db : Db)
      → Sound formula upload watched db
      → BegunSound formula upload watched (db, receive_result session m now db)
  unfolding receive_result
  receive_result-BegunSound session m now db s =
      elim (Option-cases (processed_response session m.message_id db.processed)) [
        | inr (r, e) ↦ rw (e, receive_result) s
        | inl e ↦
            elim (Option-cases (
              find?
                (λ l. l.lease_id == m.lease_id && l.task_id == m.task_id && l.session_id == session)
                db.leases)) [
                  | inl f ↦ rw (e, receive_result, f) s
                  | inr (l, f) ↦ elim (Bool-cases (l.slot_id == m.slot_id)) [
                    | inr q ↦ rw (e, receive_result, f, q) s
                    | inl q ↦
                        rw (e, receive_result, f, q)
                          (read_leased-BegunSound session m now l (task m.task_id db.tasks) db.job
                            db refl s)
                  ]
                ]
      ]

  -- What runs between the two waits keeps the meaning of the answers.
  pub resume_result-BegunSound :
      (path_hash : List ℤ → ℕ) (r : Reading) (db : Db)
      → Sound formula upload (r.task ∷ watched) db
      → BegunSound formula upload watched (resume_result path_hash r db)
  unfolding resume_result
  resume_result-BegunSound path_hash r db s =
      elim (Bool-cases (names_cube path_hash r.message.manifest r.task)) [
        | inr e ↦ rw e (unwatch formula upload watched r.task db s)
        | inl e ↦ rw e (
            begin_kind-BegunSound r.message.result r.session_id r.message r.job r.lease r.task
              (is_stale r.lease r.task r.now) r.now db s)
      ]

module _ (formula : List (List ℤ)) (upload : Type 0) (watched : List TaskRow) where
  set_invalid : (j : Option JobRow) → JobSound formula upload (set_job_state JobState.invalid j)
  set_invalid none = tt
  set_invalid (some j) = record {
    unsat = λ q. absurd (cc);
    sat = λ q. absurd (cc);
    uploading = λ q. absurd (cc);
  }

  set_sat :
      Satisfiable formula
      → (j : Option JobRow) → JobSound formula upload (set_job_state JobState.sat_verified j)
  set_sat f none = tt
  set_sat f (some j) = record {
    unsat = λ q. absurd (cc);
    sat = λ q. f;
    uploading = λ q. absurd (cc);
  }

  accept_sat-Sound :
      (p : Pending) (now : ℕ) (db : Db)
      → Satisfiable formula
      → Sound formula upload watched db
      → Sound formula upload watched (accept_sat p now db)
  unfolding accept_sat
  accept_sat-Sound p now db f s = record {
    tasks =
        TasksSound-demote formula watched _ _ (λ t. (refl, refl)) (λ t. refl) _
          (TasksSound-demote formula watched _ _ (λ t. (refl, refl)) (λ t. refl) db.tasks s.tasks);
    job = set_sat f db.job;
  }

  reject_formula-Sound :
      (now : ℕ) (db : Db)
      → Sound formula upload watched db
      → Sound formula upload watched (reject_formula now db)
  unfolding reject_formula
  reject_formula-Sound now db s = record {
    tasks = TasksSound-demote formula watched _ _ (λ t. (refl, refl)) (λ t. refl) db.tasks s.tasks;
    job = set_invalid db.job;
  }

  reopen_task-Sound :
      (p : Pending) (invalid : Bool) (now : ℕ) (db : Db)
      → Sound formula upload watched db
      → Sound formula upload watched (reopen_task p invalid now db)
  reopen_task-Sound p invalid now db s = record {
    tasks = TasksSound-demote formula watched _ _ (λ t. (refl, refl)) (λ t. refl) db.tasks s.tasks;
    job = s.job;
  }

  reopen_sat-Sound :
      (p : Pending) (invalid : Bool) (now : ℕ) (db : Db)
      → Sound formula upload watched db
      → Sound formula upload watched (reopen_sat p invalid now db)
  unfolding reopen_sat
  reopen_sat-Sound p true now db s =
      release_quarantined_session_leases-Sound formula upload watched p.session_id now
        (reopen_task p true now db) (reopen_task-Sound p true now db s)
  reopen_sat-Sound p false now db s = reopen_task-Sound p false now db s

  settle_sat-Sound :
      (p : Pending) (v : SatVerdict) (now : ℕ) (db : Db)
      → (v ≡ valid_sat → Satisfiable formula)
      → Sound formula upload watched db
      → Sound formula upload watched (settle_sat p v now db)
  settle_sat-Sound p valid_sat now db f s = accept_sat-Sound p now db (f refl) s
  settle_sat-Sound p SatVerdict.invalid_formula now db f s = reject_formula-Sound now db s
  settle_sat-Sound p invalid_model now db f s = reopen_sat-Sound p true now db s
  settle_sat-Sound p SatVerdict.verification_timeout now db f s = reopen_sat-Sound p false now db s

  discard_model-Sound :
      (p : Pending) (v : SatVerdict) (db : Db)
      → Sound formula upload watched db
      → Sound formula upload watched (discard_model p v db)
  discard_model-Sound p valid_sat db s = s
  discard_model-Sound p SatVerdict.invalid_formula db s = s
  discard_model-Sound p invalid_model db s = record { tasks = s.tasks; job = s.job }
  discard_model-Sound p SatVerdict.verification_timeout db s = s

  -- A SAT verdict is taken over only with a model behind it.
  pub finish_sat-Sound :
      (p : Pending) (v : SatVerdict) (now : ℕ) (db : Db)
      → (v ≡ valid_sat → Satisfiable formula)
      → Sound formula upload watched db
      → Sound formula upload watched (finish_sat p v now db)
  unfolding finish_sat
  finish_sat-Sound p v now db f s =
      elim (Option-cases (processed_response p.session_id p.message.message_id db.processed)) [
        | inr (r, e) ↦ rw (e, finish_sat) (discard_model-Sound p v db s)
        | inl e ↦
            rw (e, finish_sat)
              (discard_model-Sound p v _ (
                let s' =
                  settle_sat-Sound p v now
                    (record db { verifications = close_verification p v now db.verifications }) f
                    (record { tasks = s.tasks; job = s.job }) in
                record { tasks = s'.tasks; job = s'.job }))
      ]

  accept_unsat-Sound :
      (p : Pending) (now : ℕ) (db : Db)
      → UnsatUnder formula p.task.assumptions
      → SameCube db.tasks p.task
      → Sound formula upload watched db
      → Sound formula upload watched (accept_unsat p now db)
  unfolding accept_unsat
  accept_unsat-Sound p now db u same s =
      propagate_unsat_coverage-Sound formula upload watched p.task.parent_task_id now _ (record {
        tasks =
            TasksSound-update formula watched _ _ (λ t. (refl, refl)) db.tasks
              (All-map
                (λ t k h q.
                  subst (UnsatUnder formula) (sym (k ((==_iff t.task_id p.task.task_id).0 h))) u)
                db.tasks same)
              s.tasks;
        job = s.job;
      })

  reopen_unsat-Sound :
      (p : Pending) (now : ℕ) (db : Db)
      → Sound formula upload watched db
      → Sound formula upload watched (reopen_unsat p now db)
  unfolding reopen_unsat
  reopen_unsat-Sound p now db s = record {
    tasks = TasksSound-demote formula watched _ _ (λ t. (refl, refl)) (λ t. refl) db.tasks s.tasks;
    job = s.job;
  }

  reject_proof-Sound :
      (p : Pending) (now : ℕ) (db : Db)
      → Sound formula upload watched db
      → Sound formula upload watched (reject_proof p now db)
  unfolding reject_proof
  reject_proof-Sound p now db s =
      release_quarantined_session_leases-Sound formula upload watched p.session_id now _ (record {
        tasks =
            TasksSound-demote formula watched _ _ (λ t. (refl, refl)) (λ t. refl) db.tasks s.tasks;
        job = s.job;
      })

  settle_unsat-Sound :
      (p : Pending) (v : UnsatVerdict) (now : ℕ) (db : Db)
      → (v ≡ valid_unsat → UnsatUnder formula p.task.assumptions)
      → SameCube db.tasks p.task
      → Sound formula upload watched db
      → Sound formula upload watched (settle_unsat p v now db)
  settle_unsat-Sound p valid_unsat now db u same s = accept_unsat-Sound p now db (u refl) same s
  settle_unsat-Sound p owner_check_required now db u same s = record {
    tasks = s.tasks;
    job = s.job;
  }
  settle_unsat-Sound p UnsatVerdict.invalid_formula now db u same s = reject_formula-Sound now db s
  settle_unsat-Sound p invalid_proof now db u same s = reject_proof-Sound p now db s
  settle_unsat-Sound p UnsatVerdict.verification_timeout now db u same s =
      reopen_unsat-Sound p now db s

  discard_proof-Sound :
      (p : Pending) (v : UnsatVerdict) (db : Db)
      → Sound formula upload watched db
      → Sound formula upload watched (discard_proof p v db)
  discard_proof-Sound p valid_unsat db s = s
  discard_proof-Sound p owner_check_required db s = s
  discard_proof-Sound p UnsatVerdict.invalid_formula db s = s
  discard_proof-Sound p invalid_proof db s = record { tasks = s.tasks; job = s.job }
  discard_proof-Sound p UnsatVerdict.verification_timeout db s = s

  -- An UNSAT verdict is taken over only with a refuted cube behind it.
  pub finish_unsat-Sound :
      (p : Pending) (v : UnsatVerdict) (now : ℕ) (db : Db)
      → (v ≡ valid_unsat → UnsatUnder formula p.task.assumptions)
      → SameCube db.tasks p.task
      → Sound formula upload watched db
      → Sound formula upload watched (finish_unsat p v now db)
  unfolding finish_unsat
  finish_unsat-Sound p v now db u same s =
      elim (Option-cases (processed_response p.session_id p.message.message_id db.processed)) [
        | inr (r, e) ↦ rw (e, finish_unsat) (discard_proof-Sound p v db s)
        | inl e ↦
            rw (e, finish_unsat)
              (discard_proof-Sound p v _ (
                let s' = settle_unsat-Sound p v now db u same s in
                record { tasks = s'.tasks; job = s'.job }))
      ]

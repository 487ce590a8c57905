-- ===== src/Coordinator/Retries.antt =====
-- Messages that a browser sends twice to worker/job-coordinator.ts.
use hive_sat.Coordinator.Split.{
  handle_split, split_with_permit, split_leased, split_needed, permit_matches, split_task,
}
use hive_sat.Prelude.{
  ◌<◌, length, abs, any, find?, ltb, not, ◌||◌, ◌-◌, subst, ℕ, ◌≡◌, refl, sym, Bool, true, false,
  ◌&&◌, List, [], ◌∷◌, Option, none, some, take, leb, le→leb, ◌==◌, arith, Bool-cases, Option-cases,
  inl, inr, All,
}
use hive_sat.Coordinator.State.{
  JobRow, TaskRow, SplitPermitRow, SplitMessage, Session, max_tasks, max_cube_depth, LeaseRow, Db,
  ProcessedRow, Response, ack, error, YieldMessage, processed_message_limit,
}
use hive_sat.Coordinator.Tables.{
  task, sort_by, insert_by, All-sort_by, processed_response, prune_processed, record_processed,
}
use hive_sat.Coordinator.Leases.{active_lease, yield_lease, handle_yield}

abbrev pub is_ack : Response → Bool
is_ack (ack request at action stale) = true
is_ack (error code retryable request) = false

-- Every message was processed earlier: how SQL orders rows of the same time plays no part then.
abbrev pub Earlier : ℕ → Db → Type 0
Earlier now db = All (λ r. r.processed_at < now) db.processed

abbrev recorded : ℕ → ℕ → Response → ℕ → ProcessedRow
recorded session message r now = record {
  session_id = session;
  message_id = message;
  response = r;
  processed_at = now;
}

same_key : (session message : ℕ) → ((session == session) && (message == message)) ≡ true
same_key session message = ground arith

-- The latest row is the first after sorting, and stays.
first_row :
    (session message : ℕ) (r : Response) (now : ℕ) (ys : List ProcessedRow)
    → All (λ y. y.processed_at < now) ys
    → processed_response session message (
        take processed_message_limit (
          insert_by (λ a b. leb b.processed_at a.processed_at) (recorded session message r now) ys))
      ≡ some r
unfolding processed_response
first_row session message r now [] a = rw (processed_response, same_key session message) refl
first_row session message r now (y ∷ ys) (a, rest) =
    rw (le→leb y.processed_at now (omega (arith, a)), processed_response, same_key session message)
      refl

-- A response that is recorded is found again.
processed_response-record_processed :
    (session message : ℕ) (r : Response) (now : ℕ) (db : Db)
    → Earlier now db
    → processed_response session message db.processed ≡ none
    → processed_response session message (record_processed session message r now db).processed
      ≡ some r
unfolding record_processed prune_processed
processed_response-record_processed session message r now db h e = rw e (
    first_row session message r now
      (sort_by (λ a b. leb b.processed_at a.processed_at) db.processed)
      (All-sort_by (λ y. y.processed_at < now) (λ a b. leb b.processed_at a.processed_at)
        db.processed h))

module _ (session : ℕ) (now : ℕ) (db : Db) where
  -- A message that is known is answered as before.
  handle_yield-known :
      (m : YieldMessage) (r : Response)
      → processed_response session m.message_id db.processed ≡ some r
      → handle_yield session m now db ≡ (db, r)
  unfolding handle_yield
  handle_yield-known m r e = rw (handle_yield, e) refl

  handle_yield-new :
      (m : YieldMessage)
      → processed_response session m.message_id db.processed ≡ none
      → handle_yield session m now db
        ≡ yield_lease session m now (active_lease session m.task_id m.lease_id now db) db
  unfolding handle_yield
  handle_yield-new m e = rw (handle_yield, e) refl

  yield_lease-recorded :
      (m : YieldMessage) (o : Option LeaseRow)
      → Earlier now db
      → processed_response session m.message_id db.processed ≡ none
      → is_ack (yield_lease session m now o db).1 ≡ true
      → processed_response session m.message_id (yield_lease session m now o db).0.processed
        ≡ some (yield_lease session m now o db).1
  yield_lease-recorded m none h e = λ k. absurd (ground arith)
  yield_lease-recorded m (some l) h e = elim (Bool-cases (l.slot_id == m.slot_id)) [
    | inr q ↦ rw q (λ k. absurd (ground arith))
    | inl q ↦ rw q (λ k. processed_response-record_processed session m.message_id _ now _ h e)
  ]

-- If every message was processed before `now`, and a yield was acknowledged at `now`, then the same
-- message, sent again at any time, gets the same response and changes nothing.
pub handle_yield-twice :
    (session now later : ℕ) (m : YieldMessage) (db : Db)
    → Earlier now db
    → is_ack (handle_yield session m now db).1 ≡ true
    → handle_yield session m later (handle_yield session m now db).0 ≡ handle_yield session m now db
handle_yield-twice session now later m db h k =
    elim (Option-cases (processed_response session m.message_id db.processed)) [
      | inr (r, e) ↦
          subst (λ x. handle_yield session m later x.0 ≡ x)
            (sym (handle_yield-known session now db m r e))
            (handle_yield-known session later db m r e)
      | inl e ↦
          let o = active_lease session m.task_id m.lease_id now db in
          let q = handle_yield-new session now db m e in
          subst (λ x. handle_yield session m later x.0 ≡ x) (sym q)
            (handle_yield-known session later (yield_lease session m now o db).0 m
              (yield_lease session m now o db).1
              (yield_lease-recorded session now db m o h e (subst (λ x. is_ack x.1 ≡ true) q k)))
    ]

module _ (session : ℕ) (m : SplitMessage) (positive_id negative_id now : ℕ)
    (sessions : List Session) (db : Db) where
  handle_split-known :
      (r : Response)
      → processed_response session m.message_id db.processed ≡ some r
      → handle_split session m positive_id negative_id now sessions db ≡ (db, r)
  unfolding handle_split
  handle_split-known r e = rw (handle_split, e) refl

  -- The response is the recorded one.
  abbrev Recorded : Db × Response → Type 0
  Recorded (after, r) =
      is_ack r ≡ true → processed_response session m.message_id after.processed ≡ some r

  split_with_permit-Recorded :
      (job : JobRow) (t : TaskRow) (l : LeaseRow) (p : SplitPermitRow)
      → Earlier now db
      → processed_response session m.message_id db.processed ≡ none
      → Recorded (split_with_permit session m positive_id negative_id now sessions job t l p db)
  unfolding split_task
  split_with_permit-Recorded job t l p h e = elim (Bool-cases (split_needed sessions now db)) [
    | inr a ↦ rw a (λ k. absurd (ground arith))
    | inl a ↦ rw a (elim (Bool-cases (ltb (max_tasks - 2) (length db.tasks))) [
      | inl f ↦ rw f (λ k. absurd (ground arith))
      | inr f ↦
          rw f
            (elim (Bool-cases (
              ltb job.variable_count (abs m.split_literal)
              || any (λ x. abs x == abs m.split_literal) t.assumptions)) [
                | inl g ↦ rw g (λ k. absurd (ground arith))
                | inr g ↦
                    rw g (λ k. processed_response-record_processed session m.message_id _ now _ h e)
              ])
    ])
  ]

  split_leased-Recorded :
      (job : Option JobRow) (t : Option TaskRow) (l : LeaseRow)
      → Earlier now db
      → processed_response session m.message_id db.processed ≡ none
      → Recorded (split_leased session m positive_id negative_id now sessions job t l db)
  split_leased-Recorded none t l h e = λ k. absurd (ground arith)
  split_leased-Recorded (some job) none l h e = λ k. absurd (ground arith)
  split_leased-Recorded (some job) (some t) l h e =
      elim (Bool-cases
        (not (l.slot_id == m.slot_id) || leb max_cube_depth t.depth || t.proof_required)) [
          | inl a ↦ rw a (λ k. absurd (ground arith))
          | inr a ↦ elim (Option-cases (find? (permit_matches m session now) db.permits)) [
            | inl g ↦ rw (a, g, Recorded) (λ k. absurd (ground arith))
            | inr (p, g) ↦ rw (a, g, Recorded) (split_with_permit-Recorded job t l p h e)
          ]
        ]

  handle_split-Recorded :
      Earlier now db
      → processed_response session m.message_id db.processed ≡ none
      → Recorded (handle_split session m positive_id negative_id now sessions db)
  unfolding handle_split
  handle_split-Recorded h e =
      elim (Option-cases (active_lease session m.task_id m.lease_id now db)) [
        | inl f ↦ rw (handle_split, e, f) (λ k. absurd (ground arith))
        | inr (l, f) ↦
            rw (handle_split, e, f) (split_leased-Recorded db.job (task m.task_id db.tasks) l h e)
      ]

-- If every message was processed before `now`, and a split was acknowledged at `now`, then the same
-- message, sent again at any time, with any other random ids and sessions, gets the same response and
-- changes nothing: the task is split once.
pub handle_split-twice :
    (session : ℕ) (m : SplitMessage)
    (positive_id negative_id other_positive other_negative now later : ℕ)
    (sessions other_sessions : List Session) (db : Db)
    → Earlier now db
    → is_ack (handle_split session m positive_id negative_id now sessions db).1 ≡ true
    → handle_split session m other_positive other_negative later other_sessions
        (handle_split session m positive_id negative_id now sessions db).0
      ≡ handle_split session m positive_id negative_id now sessions db
handle_split-twice session m positive_id negative_id other_positive other_negative now later
      sessions other_sessions db h k =
    elim (Option-cases (processed_response session m.message_id db.processed)) [
      | inr (r, e) ↦
          subst
            (λ x. handle_split session m other_positive other_negative later other_sessions x.0 ≡ x)
            (sym (handle_split-known session m positive_id negative_id now sessions db r e))
            (handle_split-known session m other_positive other_negative later other_sessions db r e)
      | inl e ↦
          let x = handle_split session m positive_id negative_id now sessions db in
          handle_split-known session m other_positive other_negative later other_sessions x.0 x.1
            (handle_split-Recorded session m positive_id negative_id now sessions db h e k)
    ]

-- ===== src/Coordinator/Split.antt =====
-- Splitting of cubes in worker/job-coordinator.ts: `handleSplit` and `issueSplitPermits`.
-- `sessions` is what `connectedSessions` returns, in its order; the random ids are arguments.
pub mod Answers
pub mod Bounds
pub mod Halves
use hive_sat.Prelude.{
  ℕ, zero, suc, ◌+◌, ◌-◌, ◌*◌, Bool, true, false, ◌&&◌, ◌||◌, not, List, [], ◌∷◌, ◌++◌, Option,
  none, some, filter, find?, any, length, ltb, leb, ◌==◌, ℤ, abs, neg, if◌then◌else◌, min,
}
use hive_sat.Coordinator.State.{
  JobRow, TaskState, TaskRow, LeaseRow, LeaseStatus, SplitPermitRow, PermitStatus, Db, Response,
  ack, error, Action, ErrorCode, stale_lease, invalid_state, split_not_needed, task_limit,
  SplitMessage, Session, max_cube_depth, max_tasks, max_frontier, split_seed_ms, split_permit_ms,
}
use hive_sat.Coordinator.Tables.{
  update, count, sort_by, holds, is_some, is_ready, is_leased, is_active, is_permit_active, task,
  processed_response, record_processed,
}
use hive_sat.Coordinator.Leases.{active_lease}

-- The slots of the connected sessions.
unfoldable pub connected_slots : List Session → ℕ
connected_slots [] = 0
connected_slots (s ∷ ss) = length s.slot_ids + connected_slots ss

abbrev pub busy_slots : ℕ → Db → ℕ
busy_slots now db = count (λ l. is_active l.status && ltb now l.expires_at) db.leases

-- The search tasks that are ready or leased.
abbrev pub frontier : Db → ℕ
frontier db = count (λ t. not t.proof_required && (is_ready t.state || is_leased t.state)) db.tasks

abbrev pub permit_matches : SplitMessage → ℕ → ℕ → SplitPermitRow → Bool
permit_matches m session now p =
    p.permit_id == m.permit_id
    && p.task_id == m.task_id
    && p.lease_id == m.lease_id
    && p.session_id == session
    && p.slot_id == m.slot_id
    && is_permit_active p.status
    && ltb now p.expires_at

abbrev pub set_permit : ℕ → PermitStatus → List SplitPermitRow → List SplitPermitRow
set_permit id status permits =
    update (λ p. p.permit_id == id) (λ p. record p { status = status }) permits

-- A half of a split task.
abbrev pub child_task : TaskRow → ℕ → ℤ → ℕ → TaskRow
child_task t id literal now = record {
  task_id = id;
  parent_task_id = some t.task_id;
  depth = t.depth + 1;
  assumptions = t.assumptions ++ literal ∷ [];
  state = TaskState.ready;
  created_at = now;
  updated_at = now;
  lease_count = 0;
  active_lease_id = none;
  proof_required = false;
}

-- The writes of a split but for the record of the message.
unfoldable pub split_task : TaskRow → LeaseRow → SplitPermitRow → ℤ → ℕ → ℕ → ℕ → Db → Db
split_task t l p literal positive_id negative_id now db = record db {
  tasks =
      update (λ r. r.task_id == t.task_id && holds r.active_lease_id l.lease_id)
        (λ r. record r { state = TaskState.split; active_lease_id = none; updated_at = now })
        (child_task t positive_id literal now
          ∷ child_task t negative_id (neg literal) now
          ∷ db.tasks);
  leases =
      update (λ r. r.lease_id == l.lease_id) (λ r. record r { status = LeaseStatus.split })
        db.leases;
  permits = set_permit p.permit_id PermitStatus.consumed db.permits;
}

-- More slots than leases, and a frontier that is not full.
abbrev pub split_needed : List Session → ℕ → Db → Bool
split_needed sessions now db =
    let slots = connected_slots sessions in
    ltb (busy_slots now db) slots && ltb (frontier db) (min (slots * 2) max_frontier)

-- The permit is at hand, and the split is needed or not.
abbrev pub split_with_permit :
    ℕ
    → SplitMessage
    → ℕ
    → ℕ
    → ℕ
    → List Session
    → JobRow
    → TaskRow
    → LeaseRow
    → SplitPermitRow
    → Db
    → Db × Response
split_with_permit session m positive_id negative_id now sessions job t l p db =
    if not (split_needed sessions now db)
    then (
      record db { permits = set_permit p.permit_id PermitStatus.cancelled db.permits },
      error split_not_needed true m.message_id,
    )
    else if ltb (max_tasks - 2) (length db.tasks)
    then (
      record db { permits = set_permit p.permit_id PermitStatus.cancelled db.permits },
      error task_limit true m.message_id,
    )
    else if ltb job.variable_count (abs m.split_literal)
        || any (λ x. abs x == abs m.split_literal) t.assumptions
    then (db, error invalid_state false m.message_id)
    else (let response = ack m.message_id now Action.split none in
        (
          record_processed session m.message_id response now
              (split_task t l p m.split_literal positive_id negative_id now db),
          response,
        ))

abbrev pub split_leased :
    ℕ
    → SplitMessage
    → ℕ
    → ℕ
    → ℕ
    → List Session
    → Option JobRow
    → Option TaskRow
    → LeaseRow
    → Db
    → Db × Response
split_leased session m positive_id negative_id now sessions (some job) (some t) l db =
    if not (l.slot_id == m.slot_id) || leb max_cube_depth t.depth || t.proof_required
    then (db, error invalid_state false m.message_id)
    else elim (find? (permit_matches m session now) db.permits) [
      | none ↦ (db, error split_not_needed true m.message_id)
      | some p ↦ split_with_permit session m positive_id negative_id now sessions job t l p db
    ]
split_leased session m positive_id negative_id now sessions job t l db =
    (db, error invalid_state false m.message_id)

-- `handleSplit`, with the two fresh task ids.
unfoldable pub handle_split : ℕ → SplitMessage → ℕ → ℕ → ℕ → List Session → Db → Db × Response
unfolding split_task record_processed
handle_split session m positive_id negative_id now sessions db =
    elim (processed_response session m.message_id db.processed) [
      | some r ↦ (db, r)
      | none ↦ elim (active_lease session m.task_id m.lease_id now db) [
        | none ↦ (db, error stale_lease false m.message_id)
        | some l ↦
            split_leased session m positive_id negative_id now sessions db.job
              (task m.task_id db.tasks) l db
      ]
    ]

-- ORDER BY issued_at, lease_id
abbrev by_issue : LeaseRow → LeaseRow → Bool
by_issue a b =
    ltb a.issued_at b.issued_at || (a.issued_at == b.issued_at && ltb a.lease_id b.lease_id)

abbrev pub splittable_task : Option TaskRow → Bool
splittable_task none = false
splittable_task (some t) = is_leased t.state && not t.proof_required && ltb t.depth max_cube_depth

abbrev pub is_candidate : ℕ → Db → LeaseRow → Bool
is_candidate now db l =
    is_active l.status
    && ltb now l.expires_at
    && (leb (l.issued_at + split_seed_ms) now || leb split_seed_ms l.last_active_ms)
    && splittable_task (task l.task_id db.tasks)
    && not (any (λ p. p.lease_id == l.lease_id && is_permit_active p.status) db.permits)

-- A permit for a lease, until the lease ends.
abbrev pub new_permit : LeaseRow → ℕ → ℕ → SplitPermitRow
new_permit l permit_id now = record {
  permit_id = permit_id;
  task_id = l.task_id;
  lease_id = l.lease_id;
  session_id = l.session_id;
  slot_id = l.slot_id;
  expires_at = min (now + split_permit_ms) l.expires_at;
  status = PermitStatus.active;
}

-- The loop over the candidates: `delivered` says whether the frame to that session can be sent, and
-- a permit that is not delivered is cancelled. INSERT OR IGNORE adds nothing where the id is taken
-- or the lease has an active permit (the unique index).
pub issue_permits : (ℕ → Bool) → ℕ → ℕ → List Session → List LeaseRow → List ℕ → Db → Db
issue_permits delivered remaining now sessions [] ids db = db
issue_permits delivered remaining now sessions (l ∷ ls) [] db = db
issue_permits delivered remaining now sessions (l ∷ ls) (id ∷ ids) db =
    let skip = issue_permits delivered remaining now sessions ls (id ∷ ids) db in
    let taken =
      any (λ p. p.permit_id == id || (p.lease_id == l.lease_id && is_permit_active p.status))
        db.permits in
    let sent : Db = record db {
      permits = if taken then db.permits else new_permit l id now ∷ db.permits;
    } in
    let failed : Db = record sent { permits = set_permit id PermitStatus.cancelled sent.permits } in
    let on = issue_permits delivered (remaining - 1) now sessions ls ids sent in
    let again = issue_permits delivered remaining now sessions ls ids failed in
    if remaining == 0
    then db
    else if not (any (λ s. s.session_id == l.session_id) sessions)
    then skip
    else if delivered l.session_id
    then on
    else again

-- UPDATE split_permits SET status = 'CANCELLED' WHERE status = 'ACTIVE' AND expires_at <= ?
abbrev pub expire_permits : ℕ → Db → Db
expire_permits now db = record db {
  permits =
      update (λ p. is_permit_active p.status && leb p.expires_at now)
        (λ p. record p { status = PermitStatus.cancelled }) db.permits;
}

-- How many permits may be issued.
abbrev pub permit_room : List Session → ℕ → Db → ℕ
permit_room sessions now db =
    let slots = connected_slots sessions in
    let outstanding = count (λ p. is_permit_active p.status && ltb now p.expires_at) db.permits in
    if ltb (max_tasks - 2) (length db.tasks)
    then 0
    else min (slots - busy_slots now db) (min (slots * 2) max_frontier - frontier db - outstanding)

-- `issueSplitPermits`, with fresh permit ids.
pub issue_split_permits : (ℕ → Bool) → List ℕ → ℕ → List Session → Db → Db
unfolding issue_permits
issue_split_permits delivered ids now sessions db =
    let swept = expire_permits now db in
    issue_permits delivered (permit_room sessions now swept) now sessions
      (sort_by by_issue (filter (is_candidate now swept) swept.leases)) ids swept

-- ===== src/Swarm/Replies/Accepted.antt =====
-- The browser takes what the directory of worker/swarm-directory.ts sends.
use hive_sat.Protocol.Capabilities.{WorkerCapabilities, calibrated_task_profile}
use hive_sat.Swarm.Assignments.Offers.{IsServed, assign-IsServed}
use hive_sat.Swarm.Assignments.{assign}
use hive_sat.Swarm.State.{Directory, PreviousSwarmAssignment}
use hive_sat.Protocol.ClientMessages.{Parsed, with_version}
use Prim.Native.String.{String}
use hive_sat.Prelude.{none, false, Option, ℕ, ◌≡◌, ◌≤◌, some, pos, le→leb, arith}
use hive_sat.Protocol.Json.{
  one_of, fields_of, bool_of, Json, Fields, property, text_of, id_of, bounded_integer, ◌>>=◌,
  fields_of,
}
use hive_sat.Protocol.Json.Ensures.{IsId, Between}
use hive_sat.Protocol.Manifest.{max_safe_integer}
use hive_sat.Protocol.SwarmMessages.{
  swarm_body_of, swarm_message_of, parse_swarm_server_message, SwarmServerMessage, swarm_error_of,
  no_work_of, code_text, SwarmServerMessage, SwarmAssignment, parse_swarm_server_message,
  assignment_of, SwarmBase, parse_snapshot, swarm_base_of,
}
use hive_sat.Swarm.Directory.{Snapshot}
use hive_sat.Swarm.Replies.{
  swarm_no_work_retry_ms, reply, assignment_fields, Assigned, SwarmAssignmentResult, reply,
  server_base,
}

bounded_integer-pos :
    (low high n : ℕ)
    → Between low high n
    → bounded_integer low high (some (Json.integer (pos n))) ≡ some n
unfolding bounded_integer
bounded_integer-pos low high n h = rw (le→leb low n h.0, le→leb n high h.1)

id_of-string : (s : String) → IsId s → id_of (some (Json.string s)) ≡ some s
unfolding id_of text_of
id_of-string s h = rw h

-- What the base of a reply must have: ids of their form and numbers within the parser's bounds.
pub record IsSendable (message request : String) (time : ℕ) (s : Snapshot) : Type 0 where
  pub message_id : IsId message
  pub request_message_id : IsId request
  pub server_time : time ≤ max_safe_integer
  pub active_jobs : s.active_jobs ≤ 100000
  pub active_workers : s.active_workers ≤ 1000000

abbrev base : String → String → ℕ → Snapshot → SwarmBase
base message request time s = record {
  message_id = message;
  request_message_id = request;
  server_time = time;
  snapshot = record { active_jobs = s.active_jobs; active_workers = s.active_workers };
}

swarm_base_of-server_base :
    (message request : String) (time : ℕ) (s : Snapshot) (rest : Fields)
    → IsSendable message request time s
    → swarm_base_of (server_base message request time s rest) ≡ some (base message request time s)
unfolding swarm_base_of server_base parse_snapshot property ◌>>=◌ fields_of
swarm_base_of-server_base message request time s rest h = rw (
  bounded_integer-pos 0 100000 s.active_jobs (omega arith, h.active_jobs),
  bounded_integer-pos 0 1000000 s.active_workers (omega arith, h.active_workers),
  id_of-string message h.message_id,
  id_of-string request h.request_message_id,
  bounded_integer-pos 0 max_safe_integer time (omega arith, h.server_time),
)

-- An offer within the parser's bounds.
pub record IsOffer (name : ℕ → String) (a : Assigned) : Type 0 where
  pub assignment_id : IsId (name a.assignment_id)
  pub job_id : IsId (name a.job_id)
  pub workers : Between 1 32 a.workers
  pub quantum_ms : Between 60000 86400000 a.quantum_ms
  pub reserved_worker_ms : Between 60000 2764800000 a.reserved_worker_ms
  pub conflict_budget : Between 1 10000 a.conflict_budget
  pub lease_target_ms : Between 60000 86400000 a.lease_target_ms

abbrev sent : (ℕ → String) → Assigned → SwarmAssignment
sent name a = record {
  assignment_id = name a.assignment_id;
  job_id = name a.job_id;
  workers = a.workers;
  quantum_ms = a.quantum_ms;
  reserved_worker_ms = a.reserved_worker_ms;
  conflict_budget = a.conflict_budget;
  lease_target_ms = a.lease_target_ms;
}

assignment_of-sent :
    (name : ℕ → String) (message request : String) (time : ℕ) (s : Snapshot) (a : Assigned)
    → IsOffer name a
    → assignment_of (server_base message request time s (assignment_fields name a))
      ≡ some (SwarmServerMessage.assignment (sent name a))
unfolding assignment_of server_base assignment_fields property ◌>>=◌
assignment_of-sent name message request time s a h = rw (
  id_of-string (name a.assignment_id) h.assignment_id,
  id_of-string (name a.job_id) h.job_id,
  bounded_integer-pos 1 32 a.workers h.workers,
  bounded_integer-pos 60000 86400000 a.quantum_ms h.quantum_ms,
  bounded_integer-pos 60000 2764800000 a.reserved_worker_ms h.reserved_worker_ms,
  bounded_integer-pos 1 10000 a.conflict_budget h.conflict_budget,
  bounded_integer-pos 60000 86400000 a.lease_target_ms h.lease_target_ms,
)

-- What the browser reads in the answer to an outcome of `assign`.
abbrev pub IsRead :
    (ℕ → String)
    → (message request : String) → ℕ
    → Snapshot
    → SwarmAssignmentResult
    → Option Json
    → Type 0
IsRead name message request time s (SwarmAssignmentResult.assigned a) (some j) =
    parse_swarm_server_message j
    ≡ Parsed.message (base message request time s, SwarmServerMessage.assignment (sent name a))
IsRead name message request time s SwarmAssignmentResult.no_work (some j) =
    parse_swarm_server_message j
    ≡ Parsed.message
        (base message request time s, SwarmServerMessage.no_work swarm_no_work_retry_ms)
IsRead name message request time s SwarmAssignmentResult.invalid_assignment (some j) =
    parse_swarm_server_message j
    ≡ Parsed.message (
      base message request time s,
      SwarmServerMessage.error (Json.string "INVALID_ASSIGNMENT") false,
    )
IsRead name message request time s SwarmAssignmentResult.failed none = Unit
IsRead name message request time s r j = ⊥

abbrev pub IsOfferIn : (ℕ → String) → SwarmAssignmentResult → Type 0
IsOfferIn name (SwarmAssignmentResult.assigned a) = IsOffer name a
IsOfferIn name r = Unit

module _ (name : ℕ → String) (message request : String) (time : ℕ) (s : Snapshot)
    (h : IsSendable message request time s) where
  reply-IsRead :
      (r : SwarmAssignmentResult)
      → IsOfferIn name r
      → IsRead name message request time s r (reply name message request time s r)
  unfolding reply parse_swarm_server_message with_version swarm_message_of fields_of ◌>>=◌
      swarm_body_of bounded_integer property one_of no_work_of swarm_error_of bool_of code_text
  reply-IsRead (SwarmAssignmentResult.assigned a) k = rw (
    swarm_base_of-server_base message request time s (assignment_fields name a) h,
    assignment_of-sent name message request time s a k,
  )
  reply-IsRead SwarmAssignmentResult.no_work k =
      rw (swarm_base_of-server_base message request time s _ h)
  reply-IsRead SwarmAssignmentResult.invalid_assignment k =
      rw (swarm_base_of-server_base message request time s _ h)
  reply-IsRead SwarmAssignmentResult.failed k = tt

profile_bounds :
    (c : WorkerCapabilities)
    → Between 1 10000 (calibrated_task_profile c).conflict_budget
      × Between 60000 86400000 (calibrated_task_profile c).lease_duration_ms
unfolding calibrated_task_profile
profile_bounds c = ground arith

served-IsOfferIn :
    (name : ℕ → String)
    → ((n : ℕ) → IsId (name n))
    → (session : ℕ) (capabilities : WorkerCapabilities) (previous : Option PreviousSwarmAssignment)
      (now : ℕ) (d : Directory) (r : Directory × SwarmAssignmentResult)
    → IsServed session capabilities previous now d r
    → IsOfferIn name r.1
served-IsOfferIn name ids session capabilities previous now d (d', SwarmAssignmentResult.assigned a)
      h =
    let profile = profile_bounds capabilities in
    record {
      assignment_id = ids a.assignment_id;
      job_id = ids a.job_id;
      workers = (h.0, omega (arith, h.1));
      quantum_ms = (omega (arith, h.4), omega (arith, h.4));
      reserved_worker_ms = (omega (arith, h.0, h.3), omega (arith, h.1, h.3));
      conflict_budget = (omega (arith, h.5, profile.0.0), omega (arith, h.5, profile.0.1));
      lease_target_ms = (omega (arith, h.6, profile.1.0), omega (arith, h.6, profile.1.1));
    }
served-IsOfferIn name ids session capabilities previous now d (d', SwarmAssignmentResult.no_work)
      h =
    tt
served-IsOfferIn name ids session capabilities previous now d
      (d', SwarmAssignmentResult.invalid_assignment) h =
    tt
served-IsOfferIn name ids session capabilities previous now d (d', SwarmAssignmentResult.failed) h =
    tt

-- Whatever the directory answers to a browser that asks for work, the browser's parser accepts it and
-- reads what was sent, if ids are of their form and the time and the snapshot are within the parser's
-- bounds.
pub assign-IsRead :
    (name : ℕ → String)
    → ((n : ℕ) → IsId (name n))
    → (message request : String) (time : ℕ) (s : Snapshot) → IsSendable message request time s
    → (id session : ℕ) (capabilities : WorkerCapabilities)
      (previous : Option PreviousSwarmAssignment) (now : ℕ) (d : Directory)
    → IsRead name message request time s
        (assign id session capabilities previous now d).1
        (reply name message request time s (assign id session capabilities previous now d).1)
assign-IsRead name ids message request time s h id session capabilities previous now d =
    reply-IsRead name message request time s h (assign id session capabilities previous now d).1 (
      served-IsOfferIn name ids session capabilities previous now d
        (assign id session capabilities previous now d)
        (assign-IsServed id session capabilities previous now d))

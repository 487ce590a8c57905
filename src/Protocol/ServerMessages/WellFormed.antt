-- ===== src/Protocol/ServerMessages/WellFormed.antt =====
-- What `parseCoordinatorServerMessage` of shared/coordinator-protocol.ts ensures.
use text.Mathlib.TextEquality.{eq_iff}
use hive_sat.Prelude.{◌≡◌, ◌≤◌, Option, some, All, length, leb, leb→le, ◌&&◌, &&-true, arith}
use hive_sat.Protocol.Json.{Json, Fields, property, same_text, id_of, literal_of, each}
use hive_sat.Protocol.Json.Ensures.{
  Ensures, bind-Ensures, guard-Ensures, both-Ensures, anything, Maybe, IsId, IsLiteral, Between,
  id_of-IsId, bounded_integer-Between, literal_of-IsLiteral, each-Ensures, each-length,
  optional-Ensures, nullable-Ensures,
}
use hive_sat.Protocol.Manifest.{max_safe_integer}
use hive_sat.Protocol.ClientMessages.WellFormed.{
  Accepts, with_version-Accepts, IsBase, base_of-IsBase,
}
use hive_sat.Protocol.ServerMessages.{
  CubeTask, Lease, Work, ServerMessage, ServerBase, ServerType, parse_cube_task, parse_lease,
  work_of, active_lease_of, welcome_of, work_message_of, split_permit_of, ack_of, error_of,
  job_cancelled_of, job_suspended_of, job_result_of, server_body_of, server_message_of,
  parse_coordinator_server_message,
}

pub record IsTask (t : CubeTask) : Type 0 where
  pub task_id : IsId t.task_id
  pub parent_task_id : Maybe IsId t.parent_task_id
  pub depth : t.depth ≤ 64
  pub assumptions : (length t.assumptions ≤ 64) × All IsLiteral t.assumptions

pub record IsLease (l : Lease) : Type 0 where
  pub lease_id : IsId l.lease_id
  pub lease_count : 1 ≤ l.lease_count
  pub expires : l.issued_at ≤ l.expires_at
  pub maximum : l.expires_at ≤ l.maximum_expires_at

-- The task and the lease are one another's, and the slot is the lease's.
pub record IsWork (w : Work) : Type 0 where
  pub slot_id : IsId w.slot_id
  pub task : IsTask w.task
  pub lease : IsLease w.lease
  pub same_task : w.task.task_id ≡ w.lease.task_id
  pub same_slot : w.slot_id ≡ w.lease.slot_id

abbrev pub IsServerMessage : ServerMessage → Type 0
IsServerMessage (ServerMessage.welcome heartbeat duration leases) =
    Between 1000 3600000 heartbeat
    × Between 1000 86400000 duration
    × (length leases ≤ 32)
    × All IsWork leases
IsServerMessage (ServerMessage.work request w) = Maybe IsId request × IsWork w
IsServerMessage (ServerMessage.split_permit permit slot task lease expires) =
    IsId permit × IsId slot × IsId task × IsId lease
IsServerMessage (ServerMessage.ack request action stale) = IsId request
IsServerMessage (ServerMessage.error problem retryable request) = Maybe IsId request
IsServerMessage (ServerMessage.job_cancelled reason) = Unit
IsServerMessage ServerMessage.job_suspended = Unit
IsServerMessage (ServerMessage.job_result verdict task) = IsId task

parse_cube_task-IsTask : (j : Option Json) → Ensures IsTask (parse_cube_task j)
unfolding parse_cube_task
parse_cube_task-IsTask j =
    bind-Ensures (λ v. Unit {0}) IsTask _ _ (anything _)
      λ v _. bind-Ensures IsId IsTask _ _ (id_of-IsId (property "taskId" v)) λ task t.
        bind-Ensures (Maybe IsId) IsTask _ _
          (nullable-Ensures IsId id_of id_of-IsId (property "parentTaskId" v))
          λ parent p.
            bind-Ensures (Between 0 64) IsTask _ _
              (bounded_integer-Between 0 64 (property "depth" v))
              λ depth d.
                bind-Ensures (λ js. Unit {0}) IsTask _ _ (anything _)
                  λ js _. guard-Ensures IsTask (leb (length js) 64) _ λ few.
                    bind-Ensures (λ u. Unit {0}) IsTask _ _ (anything _)
                      λ purpose _.
                        bind-Ensures (λ c. All IsLiteral c × (length c ≡ length js)) IsTask _ _
                          (both-Ensures (All IsLiteral) (λ c. length c ≡ length js)
                            (each literal_of js)
                            (each-Ensures IsLiteral literal_of literal_of-IsLiteral js)
                            (each-length literal_of js))
                          λ cube c. record {
                            task_id = t;
                            parent_task_id = p;
                            depth = d.1;
                            assumptions = (omega (arith, leb→le (length js) 64 few, c.1), c.0);
                          }

parse_lease-IsLease : (j : Option Json) → Ensures IsLease (parse_lease j)
unfolding parse_lease
parse_lease-IsLease j =
    bind-Ensures (λ v. Unit {0}) IsLease _ _ (anything _)
      λ v _. bind-Ensures IsId IsLease _ _ (id_of-IsId (property "leaseId" v)) λ lease l.
        bind-Ensures (λ t. Unit {0}) IsLease _ _ (anything _)
          λ task _.
            bind-Ensures (λ s. Unit {0}) IsLease _ _ (anything _)
              λ slot _.
                bind-Ensures (Between 1 max_safe_integer) IsLease _ _
                  (bounded_integer-Between 1 max_safe_integer (property "leaseCount" v))
                  λ count n.
                    bind-Ensures (λ t. Unit {0}) IsLease _ _ (anything _)
                      λ issued _.
                        bind-Ensures (λ t. Unit {0}) IsLease _ _ (anything _)
                          λ expires _.
                            bind-Ensures (λ t. Unit {0}) IsLease _ _ (anything _)
                              λ maximum _.
                                guard-Ensures IsLease (leb issued expires && leb expires maximum) _
                                  λ ordered.
                                    let both =
                                      &&-true (leb issued expires) (leb expires maximum) ordered in
                                    record {
                                      lease_id = l;
                                      lease_count = n.0;
                                      expires = leb→le issued expires both.0;
                                      maximum = leb→le expires maximum both.1;
                                    }

work_of-IsWork : (v : Fields) → Ensures IsWork (work_of v)
unfolding work_of
work_of-IsWork v = bind-Ensures IsId IsWork _ _ (id_of-IsId (property "slotId" v)) λ slot s.
    bind-Ensures IsTask IsWork _ _ (parse_cube_task-IsTask (property "task" v)) λ task t.
      bind-Ensures IsLease IsWork _ _ (parse_lease-IsLease (property "lease" v)) λ lease l.
        guard-Ensures IsWork (same_text task.task_id lease.task_id) _ λ same.
          guard-Ensures IsWork (same_text slot lease.slot_id) _ λ served. record {
            slot_id = s;
            task = t;
            lease = l;
            same_task = (eq_iff task.task_id lease.task_id).0 same;
            same_slot = (eq_iff slot lease.slot_id).0 served;
          }

active_lease_of-IsWork : (j : Option Json) → Ensures IsWork (active_lease_of j)
unfolding active_lease_of
active_lease_of-IsWork j =
    bind-Ensures (λ v. Unit {0}) IsWork _ _ (anything _) λ v _. work_of-IsWork v

welcome_of-IsServerMessage : (v : Fields) → Ensures IsServerMessage (welcome_of v)
unfolding welcome_of
welcome_of-IsServerMessage v =
    bind-Ensures (Between 1000 3600000) IsServerMessage _ _
      (bounded_integer-Between 1000 3600000 (property "heartbeatIntervalMs" v))
      λ heartbeat h.
        bind-Ensures (Between 1000 86400000) IsServerMessage _ _
          (bounded_integer-Between 1000 86400000 (property "leaseDurationMs" v))
          λ duration d.
            bind-Ensures (λ js. Unit {0}) IsServerMessage _ _ (anything _)
              λ js _. guard-Ensures IsServerMessage (leb (length js) 32) _ λ few.
                bind-Ensures (λ ws. All IsWork ws × (length ws ≡ length js)) IsServerMessage _ _
                  (both-Ensures (All IsWork) (λ ws. length ws ≡ length js) (each active_lease_of js)
                    (each-Ensures IsWork active_lease_of active_lease_of-IsWork js)
                    (each-length active_lease_of js))
                  λ leases w. (h, d, omega (arith, leb→le (length js) 32 few, w.1), w.0)

split_permit_of-IsServerMessage : (v : Fields) → Ensures IsServerMessage (split_permit_of v)
unfolding split_permit_of
split_permit_of-IsServerMessage v =
    bind-Ensures IsId IsServerMessage _ _ (id_of-IsId (property "permitId" v)) λ permit p.
      bind-Ensures IsId IsServerMessage _ _ (id_of-IsId (property "slotId" v)) λ slot s.
        bind-Ensures IsId IsServerMessage _ _ (id_of-IsId (property "taskId" v)) λ task t.
          bind-Ensures IsId IsServerMessage _ _ (id_of-IsId (property "leaseId" v)) λ lease l.
            bind-Ensures (λ n. Unit {0}) IsServerMessage _ _ (anything _) λ expires _. (p, s, t, l)

server_body_of-IsServerMessage :
    (v : Fields) (t : ServerType) → Ensures IsServerMessage (server_body_of v t)
unfolding server_body_of work_message_of ack_of error_of job_cancelled_of job_suspended_of
    job_result_of
server_body_of-IsServerMessage v ServerType.welcome = welcome_of-IsServerMessage v
server_body_of-IsServerMessage v ServerType.work =
    bind-Ensures (Maybe IsId) IsServerMessage _ _
      (optional-Ensures IsId id_of id_of-IsId (property "requestMessageId" v))
      λ request r. bind-Ensures IsWork IsServerMessage _ _ (work_of-IsWork v) λ leased w. (r, w)
server_body_of-IsServerMessage v ServerType.split_permit = split_permit_of-IsServerMessage v
server_body_of-IsServerMessage v ServerType.ack =
    bind-Ensures IsId IsServerMessage _ _ (id_of-IsId (property "requestMessageId" v)) λ request r.
      bind-Ensures (λ a. Unit {0}) IsServerMessage _ _ (anything _)
        λ action _. bind-Ensures (λ b. Unit {0}) IsServerMessage _ _ (anything _) λ stale _. r
server_body_of-IsServerMessage v ServerType.error =
    bind-Ensures (λ c. Unit {0}) IsServerMessage _ _ (anything _)
      λ problem _.
        bind-Ensures (λ b. Unit {0}) IsServerMessage _ _ (anything _)
          λ retryable _.
            bind-Ensures (Maybe IsId) IsServerMessage _ _
              (optional-Ensures IsId id_of id_of-IsId (property "requestMessageId" v))
              λ request r. r
server_body_of-IsServerMessage v ServerType.job_cancelled =
    bind-Ensures (λ r. Unit {0}) IsServerMessage _ _ (anything _) λ reason _. tt
server_body_of-IsServerMessage v ServerType.job_suspended =
    bind-Ensures (λ r. Unit {0}) IsServerMessage _ _ (anything _) λ reason _. tt
server_body_of-IsServerMessage v ServerType.job_result =
    bind-Ensures (λ r. Unit {0}) IsServerMessage _ _ (anything _)
      λ verdict _.
        bind-Ensures IsId IsServerMessage _ _ (id_of-IsId (property "taskId" v)) λ task t. t

abbrev pub IsServed : ServerBase × ServerMessage → Type 0
IsServed m = IsBase m.0.base × IsServerMessage m.1

server_message_of-IsServed : (v : Fields) → Ensures IsServed (server_message_of v)
unfolding server_message_of
server_message_of-IsServed v = bind-Ensures IsBase IsServed _ _ (base_of-IsBase v) λ base b.
    bind-Ensures (λ t. Unit {0}) IsServed _ _ (anything _)
      λ type _.
        bind-Ensures (λ n. Unit {0}) IsServed _ _ (anything _)
          λ time _.
            bind-Ensures IsServerMessage IsServed _ _ (server_body_of-IsServerMessage v type)
              λ body h. (b, h)

-- Every message of the coordinator that a browser accepts is well formed: ids of their form, tasks of
-- at most 64 literals, and work whose task, slot and lease go together, with the times of the lease
-- in order.
pub parse_coordinator_server_message-WellFormed :
    (j : Json) → Accepts IsServed (parse_coordinator_server_message j)
unfolding parse_coordinator_server_message
parse_coordinator_server_message-WellFormed j =
    with_version-Accepts IsServed server_message_of server_message_of-IsServed (some j)

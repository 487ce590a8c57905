-- ===== src/Swarm/Replies.antt =====
-- The answer of `webSocketMessage` in worker/swarm-directory.ts as JSON, with `serverBase`. `name`
-- gives the text of an id, which is a number in the tables.
pub mod Accepted
use Prim.Native.String.{String}
use hive_sat.Prelude.{ℕ, Bool, false, Option, none, some, ℤ, pos}
use hive_sat.Protocol.Json.{Json, Fields}
use hive_sat.Swarm.State.{Assigned, SwarmAssignmentResult}
use hive_sat.Swarm.Directory.{Snapshot}

-- SWARM_NO_WORK_RETRY_MS
abbrev pub swarm_no_work_retry_ms : ℕ
swarm_no_work_retry_ms = 30000

-- A property with a number, or with a text.
abbrev numeric : String → ℕ → Fields → Fields
numeric key n rest = Fields.field key (Json.integer (pos n)) rest

abbrev textual : String → String → Fields → Fields
textual key s rest = Fields.field key (Json.string s) rest

-- `serverBase`, with the properties that follow it.
unfoldable pub server_base : String → String → ℕ → Snapshot → Fields → Fields
server_base message request time snapshot rest = numeric "protocolVersion" 4 (
    textual "messageId" message (
      textual "requestMessageId" request (
        numeric "serverTime" time (
          Fields.field "snapshot"
            (Json.object (
              numeric "activeJobs" snapshot.active_jobs
                (numeric "activeWorkers" snapshot.active_workers Fields.end)))
            rest))))

unfoldable pub assignment_fields : (ℕ → String) → Assigned → Fields
assignment_fields name a = textual "type" "SWARM_ASSIGNMENT" (
    textual "assignmentId" (name a.assignment_id) (
      textual "jobId" (name a.job_id) (
        numeric "workers" a.workers (
          numeric "quantumMs" a.quantum_ms (
            numeric "reservedWorkerMs" a.reserved_worker_ms (
              numeric "conflictBudget" a.conflict_budget
                (numeric "leaseTargetMs" a.lease_target_ms Fields.end)))))))

-- The answer to an accepted message; an exception of `assign` sends none.
unfoldable pub reply :
    (ℕ → String) → (message request : String) → ℕ → Snapshot → SwarmAssignmentResult → Option Json
unfolding server_base assignment_fields
reply name message request time snapshot (SwarmAssignmentResult.assigned a) =
    some (Json.object (server_base message request time snapshot (assignment_fields name a)))
reply name message request time snapshot SwarmAssignmentResult.no_work = some (
    Json.object (
      server_base message request time snapshot (
        textual "type" "SWARM_NO_WORK" (numeric "retryAfterMs" swarm_no_work_retry_ms Fields.end))))
reply name message request time snapshot SwarmAssignmentResult.invalid_assignment = some (
    Json.object (
      server_base message request time snapshot (
        textual "type" "SWARM_ERROR" (
          textual "code" "INVALID_ASSIGNMENT"
            (Fields.field "retryable" (Json.bool false) Fields.end)))))
reply name message request time snapshot SwarmAssignmentResult.failed = none

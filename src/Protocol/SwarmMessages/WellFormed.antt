-- ===== src/Protocol/SwarmMessages/WellFormed.antt =====
-- What the parsers of shared/swarm-protocol.ts ensure.
use hive_sat.Prelude.{◌≤◌, Option, some}
use hive_sat.Protocol.Json.{Json, Fields, property}
use hive_sat.Protocol.Json.Ensures.{
  Ensures, bind-Ensures, anything, Maybe, IsId, Between, id_of-IsId, bounded_integer-Between,
  optional-Ensures,
}
use hive_sat.Protocol.ClientMessages.WellFormed.{
  Accepts, with_version-Accepts, IsCapabilities, parse_worker_capabilities-IsCapabilities,
}
use hive_sat.Protocol.SwarmMessages.{
  PreviousAssignment, SwarmHello, previous_assignment_of, swarm_hello_of,
  parse_swarm_client_message,
}

abbrev IsPrevious : PreviousAssignment → Type 0
IsPrevious p = IsId p.assignment_id × (p.active_worker_ms ≤ 115200000)

pub record IsHello (m : SwarmHello) : Type 0 where
  pub message_id : IsId m.message_id
  pub session_id : IsId m.session_id
  pub capabilities : IsCapabilities m.capabilities
  pub previous_assignment : Maybe IsPrevious m.previous_assignment

previous_assignment_of-IsPrevious :
    (j : Option Json) → Ensures IsPrevious (previous_assignment_of j)
unfolding previous_assignment_of
previous_assignment_of-IsPrevious j =
    bind-Ensures (λ v. Unit {0}) IsPrevious _ _ (anything _)
      λ v _.
        bind-Ensures IsId IsPrevious _ _ (id_of-IsId (property "assignmentId" v)) λ assignment a.
          bind-Ensures (Between 0 115200000) IsPrevious _ _
            (bounded_integer-Between 0 115200000 (property "activeWorkerMs" v)) λ active n. (a, n.1)

swarm_hello_of-IsHello : (v : Fields) → Ensures IsHello (swarm_hello_of v)
unfolding swarm_hello_of
swarm_hello_of-IsHello v =
    bind-Ensures (λ u. Unit {0}) IsHello _ _ (anything _)
      λ _ _. bind-Ensures IsId IsHello _ _ (id_of-IsId (property "messageId" v)) λ message m.
        bind-Ensures IsId IsHello _ _ (id_of-IsId (property "sessionId" v)) λ session s.
          bind-Ensures IsCapabilities IsHello _ _
            (parse_worker_capabilities-IsCapabilities (property "capabilities" v))
            λ capabilities c.
              bind-Ensures (Maybe IsPrevious) IsHello _ _
                (optional-Ensures IsPrevious previous_assignment_of
                  previous_assignment_of-IsPrevious (property "previousAssignment" v))
                λ previous p. record {
                  message_id = m;
                  session_id = s;
                  capabilities = c;
                  previous_assignment = p;
                }

-- Every message of a browser that the directory accepts has ids of their form, 1 to 32 workers and the
-- other capabilities within their bounds, and reports at most 32 worker hours.
pub parse_swarm_client_message-IsHello : (j : Json) → Accepts IsHello (parse_swarm_client_message j)
unfolding parse_swarm_client_message
parse_swarm_client_message-IsHello j =
    with_version-Accepts IsHello swarm_hello_of swarm_hello_of-IsHello (some j)

-- ===== src/Protocol/Tests.antt =====
-- Runs of the parsers of shared/, and their theorems at concrete inputs.
use Prim.Native.String.{String}
use hive_sat.Prelude.{◌≡◌, refl, true, false, some, ℤ, pos, negsuc, List, [], ◌∷◌}
use hive_sat.Protocol.Json.{
  Json, Items, Fields, property, is_id, ◌>>=◌, fields_of, bool_of, text_of, id_of, bounded_integer,
  literal_of, one_of,
}
use hive_sat.Protocol.ClientMessages.{
  MessageBase, ClientMessage, Parsed, base_of, split_of, body_of, client_message_of, with_version,
  parse_coordinator_client_message,
}
use hive_sat.Protocol.ClientMessages.WellFormed.{
  IsBase, IsClientMessage, Accepts, parse_coordinator_client_message-WellFormed,
}
use hive_sat.Protocol.ServerMessages.{parse_coordinator_server_message}
use hive_sat.Protocol.ServerMessages.WellFormed.{
  IsServed, parse_coordinator_server_message-WellFormed,
}
use hive_sat.Protocol.SwarmMessages.{
  parse_swarm_client_message, SwarmServerMessage, swarm_error_of, code_text,
}
use hive_sat.Protocol.SwarmMessages.WellFormed.{IsHello, parse_swarm_client_message-IsHello}

abbrev texts : List (String × String) → Fields → Fields
texts [] rest = rest
texts ((key, s) ∷ more) rest = Fields.field key (Json.string s) (texts more rest)

abbrev version : Fields → Json
version rest = Json.object (Fields.field "protocolVersion" (Json.integer (pos 4)) rest)

-- A split of a task at the literal -5.
abbrev split_json : ℤ → Json
split_json literal = version (
    texts
      (("messageId", "m-1")
        ∷ ("jobId", "j_2")
        ∷ ("type", "SPLIT")
        ∷ ("taskId", "root")
        ∷ ("leaseId", "l3")
        ∷ ("slotId", "s4")
        ∷ ("permitId", "p5")
        ∷ [])
      (Fields.field "splitLiteral" (Json.integer literal) Fields.end))

abbrev root_split : MessageBase × ClientMessage
root_split = (
  record { message_id = "m-1"; job_id = "j_2" },
  ClientMessage.split "s4" "root" "l3" "p5" (negsuc 4),
)

split_read : parse_coordinator_client_message (split_json (negsuc 4)) ≡ Parsed.message root_split
unfolding parse_coordinator_client_message with_version client_message_of base_of body_of split_of
    ◌>>=◌ fields_of property bounded_integer id_of text_of is_id one_of literal_of
split_read = refl

split_at_zero : parse_coordinator_client_message (split_json (pos 0)) ≡ Parsed.invalid_message
unfolding parse_coordinator_client_message with_version client_message_of base_of body_of split_of
    ◌>>=◌ fields_of property bounded_integer id_of text_of is_id one_of literal_of
split_at_zero = refl

parse_coordinator_client_message-WellFormed_example :
    Accepts
      (λ m. IsBase m.0 × IsClientMessage m.1)
      (parse_coordinator_client_message (split_json (negsuc 4)))
parse_coordinator_client_message-WellFormed_example =
    parse_coordinator_client_message-WellFormed (split_json (negsuc 4))

-- A permit from the coordinator.
abbrev permit_json : Json
permit_json = version (
    texts
      (("messageId", "m-1")
        ∷ ("jobId", "j_2")
        ∷ ("type", "SPLIT_PERMIT")
        ∷ ("taskId", "root")
        ∷ ("leaseId", "l3")
        ∷ ("slotId", "s4")
        ∷ ("permitId", "p5")
        ∷ [])
      (Fields.field "serverTime" (Json.integer (pos 1000))
        (Fields.field "expiresAt" (Json.integer (pos 121000)) Fields.end)))

parse_coordinator_server_message-WellFormed_example :
    Accepts IsServed (parse_coordinator_server_message permit_json)
parse_coordinator_server_message-WellFormed_example =
    parse_coordinator_server_message-WellFormed permit_json

abbrev capabilities_json : Json
capabilities_json = Json.object (
    Fields.field "hardwareConcurrency" (Json.integer (pos 8)) (
      Fields.field "maxWorkers" (Json.integer (pos 4)) (
        Fields.field "mobile" (Json.bool false)
          (Fields.field "solverVersion" (Json.string "1.0") Fields.end))))

abbrev hello_json : Json
hello_json = version (
    texts (("messageId", "m-1") ∷ ("type", "SWARM_HELLO") ∷ ("sessionId", "s9") ∷ [])
      (Fields.field "capabilities" capabilities_json Fields.end))

parse_swarm_client_message-IsHello_example : Accepts IsHello (parse_swarm_client_message hello_json)
parse_swarm_client_message-IsHello_example = parse_swarm_client_message-IsHello hello_json

-- A list with one code is taken for the code.
abbrev listed_code : Json
listed_code = Json.array (Items.item (Json.string "INVALID_MESSAGE") Items.nil)

listed_code_taken :
    swarm_error_of
      (Fields.field "code" listed_code (Fields.field "retryable" (Json.bool true) Fields.end))
    ≡ some (SwarmServerMessage.error listed_code true)
unfolding swarm_error_of property ◌>>=◌ bool_of code_text
listed_code_taken = refl

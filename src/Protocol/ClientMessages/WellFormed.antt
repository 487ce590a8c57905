-- ===== src/Protocol/ClientMessages/WellFormed.antt =====
-- What `parseCoordinatorClientMessage` of shared/coordinator-protocol.ts ensures.
use text.Mathlib.TextEquality.{eq_iff}
use hive_sat.Prelude.{
  ℕ, ◌≡◌, ◌≤◌, true, Option, none, some, All, length, map, leb, leb→le, ◌&&◌, ◌==◌, ==_iff, arith,
}
use hive_sat.Protocol.Capabilities.{WorkerCapabilities}
use hive_sat.Protocol.Json.{
  Json, Fields, property, same_text, is_version, is_distinct, fields_of, id_of, bounded_integer,
  each,
}
use hive_sat.Protocol.Json.Ensures.{
  Ensures, bind-Ensures, guard-Ensures, both-Ensures, anything, Maybe, IsId, IsSha256, IsLiteral,
  Between, text_of-Ensures, id_of-IsId, sha256_of-IsSha256, bounded_integer-Between,
  literal_of-IsLiteral, each-Ensures, each-length, optional-Ensures, nullable-Ensures,
}
use hive_sat.Protocol.Manifest.WellFormed.{IsManifest, parse_result_manifest-IsManifest}
use hive_sat.Protocol.ClientMessages.{
  MessageBase, SessionHeartbeatSlot, ClientMessage, ClientType, Parsed, parsed,
  parse_worker_capabilities, base_of, hello_of, slot_of, session_heartbeat_of, split_of, yield_of,
  manifest_task, is_evidence, result_of, body_of, client_message_of, with_version,
  parse_coordinator_client_message, coordinator_max_slots, coordinator_max_lease_tenure_ms,
  public_job_protocol_version,
}

pub record IsCapabilities (c : WorkerCapabilities) : Type 0 where
  pub hardware_concurrency : Between 1 256 c.hardware_concurrency
  pub max_workers : Between 1 32 c.max_workers
  pub solver_version : is_version c.solver_version ≡ true
  pub calibrated : Maybe (Between 1 10000000) c.calibrated_conflicts_per_second

pub record IsSlot (s : SessionHeartbeatSlot) : Type 0 where
  pub slot_id : IsId s.slot_id
  pub lease_id : Maybe IsId s.lease_id
  pub active_ms : s.active_ms ≤ coordinator_max_lease_tenure_ms

-- A message as the handlers take it: ids of their form, slots with different ids, as many as there are
-- workers, a literal to split on, and evidence of the kind and the task that the result names.
abbrev pub IsClientMessage : ClientMessage → Type 0
IsClientMessage (ClientMessage.hello session assignment slots capabilities) =
    IsId session
    × Maybe IsId assignment
    × All IsId slots
    × (is_distinct slots ≡ true)
    × (length slots ≡ capabilities.max_workers)
    × IsCapabilities capabilities
IsClientMessage (ClientMessage.session_heartbeat slots) =
    (length slots ≤ coordinator_max_slots)
    × All IsSlot slots
    × (is_distinct (map (λ s. s.slot_id) slots) ≡ true)
IsClientMessage (ClientMessage.split slot task lease permit literal) =
    IsId slot × IsId task × IsId lease × IsId permit × IsLiteral literal
IsClientMessage (ClientMessage.yield slot task lease reason) = IsId slot × IsId task × IsId lease
IsClientMessage (ClientMessage.result slot task lease verdict evidence manifest) =
    IsId slot
    × IsId lease
    × IsSha256 evidence
    × IsManifest manifest
    × (manifest_task manifest ≡ task)
    × (is_evidence verdict evidence manifest ≡ true)

pub parse_worker_capabilities-IsCapabilities :
    (j : Option Json) → Ensures IsCapabilities (parse_worker_capabilities j)
unfolding parse_worker_capabilities
parse_worker_capabilities-IsCapabilities j =
    bind-Ensures (λ v. Unit {0}) IsCapabilities _ _ (anything _)
      λ v _.
        bind-Ensures (Between 1 256) IsCapabilities _ _
          (bounded_integer-Between 1 256 (property "hardwareConcurrency" v))
          λ concurrency h.
            bind-Ensures (Between 1 32) IsCapabilities _ _
              (bounded_integer-Between 1 32 (property "maxWorkers" v))
              λ workers w.
                bind-Ensures (λ b. Unit {0}) IsCapabilities _ _ (anything _)
                  λ mobile _.
                    bind-Ensures (λ s. is_version s ≡ true) IsCapabilities _ _
                      (text_of-Ensures is_version (property "solverVersion" v))
                      λ version s.
                        bind-Ensures (λ p. Unit {0}) IsCapabilities _ _ (anything _)
                          λ generation _.
                            bind-Ensures (Maybe (Between 1 10000000)) IsCapabilities _ _
                              (optional-Ensures (Between 1 10000000) (bounded_integer 1 10000000)
                                (bounded_integer-Between 1 10000000)
                                (property "calibratedConflictsPerSecond" v))
                              λ calibrated c. record {
                                hardware_concurrency = h;
                                max_workers = w;
                                solver_version = s;
                                calibrated = c;
                              }

hello_of-IsClientMessage : (v : Fields) → Ensures IsClientMessage (hello_of v)
unfolding hello_of
hello_of-IsClientMessage v =
    bind-Ensures IsCapabilities IsClientMessage _ _
      (parse_worker_capabilities-IsCapabilities (property "capabilities" v))
      λ capabilities c.
        bind-Ensures IsId IsClientMessage _ _ (id_of-IsId (property "sessionId" v)) λ session s.
          bind-Ensures (λ js. Unit {0}) IsClientMessage _ _ (anything _)
            λ js _.
              guard-Ensures IsClientMessage
                (leb 1 (length js) && leb (length js) coordinator_max_slots) _
                λ _.
                  bind-Ensures (All IsId) IsClientMessage _ _
                    (each-Ensures IsId id_of id_of-IsId js)
                    λ slots ids.
                      guard-Ensures IsClientMessage (length slots == capabilities.max_workers) _
                        λ same. guard-Ensures IsClientMessage (is_distinct slots) _ λ distinct.
                          bind-Ensures (Maybe IsId) IsClientMessage _ _
                            (optional-Ensures IsId id_of id_of-IsId (property "assignmentId" v))
                            λ assignment a. (
                              s,
                              a,
                              ids,
                              distinct,
                              (==_iff (length slots) capabilities.max_workers).0 same,
                              c,
                            )

slot_of-IsSlot : (j : Option Json) → Ensures IsSlot (slot_of j)
unfolding slot_of
slot_of-IsSlot j =
    bind-Ensures (λ v. Unit {0}) IsSlot _ _ (anything _)
      λ v _. bind-Ensures IsId IsSlot _ _ (id_of-IsId (property "slotId" v)) λ slot s.
        bind-Ensures (Maybe IsId) IsSlot _ _
          (nullable-Ensures IsId id_of id_of-IsId (property "leaseId" v))
          λ lease l.
            bind-Ensures (Between 0 coordinator_max_lease_tenure_ms) IsSlot _ _
              (bounded_integer-Between 0 coordinator_max_lease_tenure_ms (property "activeMs" v))
              λ active a.
                bind-Ensures (λ n. Unit {0}) IsSlot _ _ (anything _)
                  λ conflicts _.
                    bind-Ensures (λ n. Unit {0}) IsSlot _ _ (anything _)
                      λ decisions _.
                        bind-Ensures (λ n. Unit {0}) IsSlot _ _ (anything _)
                          λ propagations _. record { slot_id = s; lease_id = l; active_ms = a.1 }

session_heartbeat_of-IsClientMessage :
    (v : Fields) → Ensures IsClientMessage (session_heartbeat_of v)
unfolding session_heartbeat_of
session_heartbeat_of-IsClientMessage v =
    bind-Ensures (λ js. Unit {0}) IsClientMessage _ _ (anything _)
      λ js _. guard-Ensures IsClientMessage (leb (length js) coordinator_max_slots) _ λ few.
        bind-Ensures (λ ss. All IsSlot ss × (length ss ≡ length js)) IsClientMessage _ _
          (both-Ensures (All IsSlot) (λ ss. length ss ≡ length js) (each slot_of js)
            (each-Ensures IsSlot slot_of slot_of-IsSlot js) (each-length slot_of js))
          λ slots h.
            guard-Ensures IsClientMessage (is_distinct (map (λ s. s.slot_id) slots)) _ λ distinct.
              (omega (arith, leb→le (length js) coordinator_max_slots few, h.1), h.0, distinct)

split_of-IsClientMessage : (v : Fields) → Ensures IsClientMessage (split_of v)
unfolding split_of
split_of-IsClientMessage v =
    bind-Ensures IsId IsClientMessage _ _ (id_of-IsId (property "taskId" v)) λ task t.
      bind-Ensures IsId IsClientMessage _ _ (id_of-IsId (property "leaseId" v)) λ lease l.
        bind-Ensures IsId IsClientMessage _ _ (id_of-IsId (property "slotId" v)) λ slot s.
          bind-Ensures IsId IsClientMessage _ _ (id_of-IsId (property "permitId" v)) λ permit p.
            bind-Ensures IsLiteral IsClientMessage _ _
              (literal_of-IsLiteral (property "splitLiteral" v)) λ literal z. (s, t, l, p, z)

yield_of-IsClientMessage : (v : Fields) → Ensures IsClientMessage (yield_of v)
unfolding yield_of
yield_of-IsClientMessage v =
    bind-Ensures IsId IsClientMessage _ _ (id_of-IsId (property "taskId" v)) λ task t.
      bind-Ensures IsId IsClientMessage _ _ (id_of-IsId (property "leaseId" v)) λ lease l.
        bind-Ensures IsId IsClientMessage _ _ (id_of-IsId (property "slotId" v)) λ slot s.
          bind-Ensures (λ r. Unit {0}) IsClientMessage _ _ (anything _) λ reason _. (s, t, l)

result_of-IsClientMessage : (v : Fields) → Ensures IsClientMessage (result_of v)
unfolding result_of
result_of-IsClientMessage v =
    bind-Ensures IsId IsClientMessage _ _ (id_of-IsId (property "taskId" v)) λ task t.
      bind-Ensures IsId IsClientMessage _ _ (id_of-IsId (property "leaseId" v)) λ lease l.
        bind-Ensures IsManifest IsClientMessage _ _
          (parse_result_manifest-IsManifest (property "manifest" v))
          λ manifest m.
            bind-Ensures IsId IsClientMessage _ _ (id_of-IsId (property "slotId" v)) λ slot s.
              bind-Ensures (λ u. Unit {0}) IsClientMessage _ _ (anything _)
                λ verdict _.
                  bind-Ensures IsSha256 IsClientMessage _ _
                    (sha256_of-IsSha256 (property "evidenceSha256" v))
                    λ evidence e.
                      guard-Ensures IsClientMessage (same_text (manifest_task manifest) task) _
                        λ same.
                          guard-Ensures IsClientMessage (is_evidence verdict evidence manifest) _
                            λ right.
                              (s, l, e, m, (eq_iff (manifest_task manifest) task).0 same, right)

body_of-IsClientMessage : (v : Fields) (t : ClientType) → Ensures IsClientMessage (body_of v t)
unfolding body_of
body_of-IsClientMessage v ClientType.hello = hello_of-IsClientMessage v
body_of-IsClientMessage v ClientType.session_heartbeat = session_heartbeat_of-IsClientMessage v
body_of-IsClientMessage v ClientType.split = split_of-IsClientMessage v
body_of-IsClientMessage v ClientType.yield = yield_of-IsClientMessage v
body_of-IsClientMessage v ClientType.result = result_of-IsClientMessage v

abbrev pub IsBase : MessageBase → Type 0
IsBase b = IsId b.message_id × IsId b.job_id

pub base_of-IsBase : (v : Fields) → Ensures IsBase (base_of v)
unfolding base_of
base_of-IsBase v =
    bind-Ensures IsId IsBase _ _ (id_of-IsId (property "messageId" v))
      λ message m. bind-Ensures IsId IsBase _ _ (id_of-IsId (property "jobId" v)) λ job j. (m, j)

client_message_of-WellFormed :
    (v : Fields) → Ensures (λ m. IsBase m.0 × IsClientMessage m.1) (client_message_of v)
unfolding client_message_of
client_message_of-WellFormed v =
    bind-Ensures IsBase (λ m. IsBase m.0 × IsClientMessage m.1) _ _ (base_of-IsBase v)
      λ base b.
        bind-Ensures (λ t. Unit {0}) (λ m. IsBase m.0 × IsClientMessage m.1) _ _ (anything _)
          λ type _.
            bind-Ensures IsClientMessage (λ m. IsBase m.0 × IsClientMessage m.1) _ _
              (body_of-IsClientMessage v type) λ body h. (b, h)

-- What a message that was taken has.
abbrev pub Accepts : {M : Type 0} → (M → Type 0) → Parsed M → Type 0
Accepts P (Parsed.message m) = P m
Accepts P _ = Unit

pub with_version-Accepts :
    {M : Type 0} (P : M → Type 0) (read : Fields → Option M)
    → ((v : Fields) → Ensures P (read v))
    → (j : Option Json) → Accepts P (with_version read j)
unfolding with_version
with_version-Accepts {M} P read h j = record_read (fields_of j)
  where
    taken : (m : Option M) → Ensures P m → Accepts P (parsed m)
    taken none k = tt
    taken (some m) k = k

    versioned :
        (v : Fields) (n : Option ℕ)
        → Accepts P (elim n [ none ↦ Parsed.upgrade_required | some n ↦ parsed (read v) ])
    versioned v none = tt
    versioned v (some n) = taken (read v) (h v)

    record_read :
        (o : Option Fields)
        → Accepts P (elim o [
          | none ↦ Parsed.invalid_message
          | some v ↦
              elim (bounded_integer public_job_protocol_version public_job_protocol_version
                (property "protocolVersion" v)) [
                  | none ↦ Parsed.upgrade_required
                  | some n ↦ parsed (read v)
                ]
        ])
    record_read none = tt
    record_read (some v) = versioned v (
        bounded_integer public_job_protocol_version public_job_protocol_version
          (property "protocolVersion" v))

-- Every message of a client that is accepted is well formed, whatever JSON value came in.
pub parse_coordinator_client_message-WellFormed :
    (j : Json)
    → Accepts (λ m. IsBase m.0 × IsClientMessage m.1) (parse_coordinator_client_message j)
unfolding parse_coordinator_client_message
parse_coordinator_client_message-WellFormed j =
    with_version-Accepts (λ m. IsBase m.0 × IsClientMessage m.1) client_message_of
      client_message_of-WellFormed (some j)

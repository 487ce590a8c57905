-- ===== src/Lib.antt =====
-- HiveSAT: distributed solving of CNF formulas. A job's owner uploads a formula; browsers lease cubes
-- of it from the job's coordinator, split them, and answer with a model or a proof; a verifier
-- checks each answer before the coordinator takes it over.
--
-- Cnf says what a formula means: valuations, satisfied clauses, refuted cubes. It is the
-- specification for the rest.
--
-- Coordinator is worker/job-coordinator.ts, the durable object of one job, with the message types of
-- shared/coordinator-protocol.ts. Coordinator.State has the rows of its tables and the messages, and
-- Coordinator.Tables the SQL that the code uses, as functions on lists of rows. A handler is a
-- function from the database to the database and the response:
--   Leases: `leaseWorkForSlot`, `rollbackUndeliveredLease`, `handleYield`, `handleSessionHeartbeat`,
--     `webSocketClose`, the expiry in `alarm`, `releaseQuarantinedSessionLeases`;
--   Split: `handleSplit`, `issueSplitPermits`;
--   Hello: `handleHello` up to its WELCOME, and `dispatchPendingWork`;
--   Alarm: `scheduleNextAlarm`, `nextSplitSeedAt`, `hasExpiredLease`;
--   Coverage: `propagateUnsatCoverage`, `closeUnsatJob`;
--   Results: `handleResult`, `handleUnsatResult`, `handleUnsatProof`, cut at the wait for the hash of the
--     path (`receive_result` before it, `resume_result` after it) and at the wait for the verifier
--     (`finish_sat` and `finish_unsat` after it);
--   Uploads: `initialize`, the authorizations, `storeFormula`, `storeModel`, `storeProof`, `cancel`,
--     `confirmOwnerProof`, `rotateOwnerToken`, cut likewise at the wait for the store.
-- Coordinator.Machine lets the handlers run in any order while any number of others wait, for the hash
-- of a path, a verifier, the directory or a store; the clean-up of an expired job is no step of it.
-- Coordinator.MachineTests runs it to a certified and to an owner-verified job. Random ids and the clock are arguments. Ids, digests and keys are numbers, since the code
-- only compares them. The loop of `propagateUnsatCoverage` runs on fuel, and `propagate` is `none`
-- when it runs out; one more than the number of tasks is enough, since each round takes one out of
-- SPLIT (Coordinator.Coverage.Rounds).
--
-- ResultVerifier is worker/result-verifier.ts: `verifyUnsatOnce` and the loops of `verifySatOnce`, which
-- ResultVerifier.SatOnce puts together. The platform's SHA-256, decompression, text decoding and JSON
-- parser are parameters. The caches of results are left out.
-- Lrat is shared/lrat-check.ts: Lrat.Text splits the text, Lrat.Rup checks a chain of hints, and
-- Lrat.Checker runs over the lines. `Number(token)` is a parameter.
-- Formula is src/lib/formula: `verifySatModel` of modelVerifier.ts, and the HiveCnfV1 codec and
-- `createClauseBatches` of hiveCnf.ts. Limits has the constants of limits.ts and shared/public-jobs.ts.
--
-- Swarm is worker/swarm-directory.ts, the durable object that shares the browsers' workers out over the
-- jobs, with worker/fair-scheduler.ts in Swarm.FairScheduler. Swarm.State has its tables,
-- Swarm.Directory admission, eligibility, Turnstile tokens and the snapshots, Swarm.Assignments
-- `assign`, `activate`, `reconcile`, `expireAssignments` and `alarm`. Swarm.Ledger states what the
-- counters of the jobs stand for, and Swarm.Machine runs the operations in any order. An INSERT whose
-- primary key is taken is the answer `failed`. Scores of the fair scheduler are counted in twentieths
-- of a millisecond above minus one quantum, so that they are natural numbers; doubles round them.
-- Swarm.Replies has the answers of `webSocketMessage`.
--
-- Protocol has the parsers of shared/: Protocol.Json the values and tests, Protocol.Manifest
-- `parseResultManifest` of result-manifest.ts, Protocol.Artifacts its `decodeSatModelArtifact` (with the
-- platform's JSON parser as a parameter), Protocol.ClientMessages and Protocol.ServerMessages
-- coordinator-protocol.ts, Protocol.SwarmMessages swarm-protocol.ts, Protocol.Capabilities
-- capability-profile.ts. Texts are kept there; the coordinator and the directory compare ids only and
-- have numbers for them.
--
-- Not modelled: the user interface, the solver and the vendored checkers, the HTTP entry point
-- (worker/index.ts), sockets, object storage and alarms as such; the clean-up of expired jobs,
-- `getStatus` and the downloads, `encodeSatModelArtifact`, the DIMACS parser, the cost model
-- and the browsers' search loop.
pub mod Prelude
pub mod Cnf
pub mod Lrat
pub mod Limits
pub mod Formula
pub mod ResultVerifier
pub mod Coordinator
pub mod Protocol
pub mod Swarm

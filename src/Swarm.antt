-- ===== src/Swarm.antt =====
-- worker/swarm-directory.ts: the durable object that shares the browsers' workers out over the jobs.
pub mod State
pub mod FairScheduler
pub mod Directory
pub mod Ledger
pub mod Assignments
pub mod Machine
pub mod Tests
pub mod Replies

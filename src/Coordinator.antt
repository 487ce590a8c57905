-- ===== src/Coordinator.antt =====
-- worker/job-coordinator.ts: the durable object that owns one public job.
pub mod State
pub mod Tables
pub mod Leases
pub mod Split
pub mod Coverage
pub mod Results
pub mod Uploads
pub mod Answers
pub mod Hello
pub mod Alarm
pub mod Machine
pub mod Tests
pub mod SessionTests
pub mod MachineTests
pub mod Retries

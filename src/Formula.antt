-- ===== src/Formula.antt =====
-- src/lib/formula: the formulas of the browser runtime.
pub mod ModelVerifier
pub mod HiveCnf
pub mod Tests
pub mod Batches

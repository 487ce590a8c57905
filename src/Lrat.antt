-- ===== src/Lrat.antt =====
-- shared/lrat-check.ts: the bounded text-LRAT checker.
pub mod Text
pub mod Rup
pub mod Checker
pub mod Tests

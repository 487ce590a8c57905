-- ===== src/Protocol.antt =====
-- The messages that the browser, the directory and the coordinator exchange (shared/).
pub mod Capabilities
pub mod Json
pub mod Manifest
pub mod Artifacts
pub mod ClientMessages
pub mod ServerMessages
pub mod SwarmMessages
pub mod Tests
pub mod ArtifactTests

-- ===== src/Scenario.antt =====
-- lueur-cli/src/scenario.rs: scenario items, and what is done with each.
mod Tests
pub mod Events
pub mod Items
pub mod Lifecycle
pub mod Execute
pub mod Load
pub mod Request

-- ===== src/Reporting.antt =====
-- lueur-cli/src/reporting.rs: the items of a report, and the tables made of them.
pub mod Items
pub mod Slo
pub mod Save
pub mod Output
pub mod Render
mod Tests

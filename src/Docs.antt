-- ===== src/Docs.antt =====
-- The scripts of the published API documentation, docs/latest/api/lib.
mod Strings
pub mod Scheduler
pub mod Template
pub mod Navigation
pub mod InsertSorted
pub mod Search
pub mod Diagrams

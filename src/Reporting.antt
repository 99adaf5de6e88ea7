-- ===== src/Reporting.antt =====
-- contexts/reporting: versioned reports on assessments, and their finalization.
pub mod Sections
pub mod Report
pub mod Handlers
pub mod Immutable
pub mod Queries
pub mod Latest
pub mod Versions
mod Tests

-- ===== src/Validation.antt =====
-- The context contexts/validation: the metrics of a dataset, the verdict on them, and the runs that are
-- stored.
pub mod Types
pub mod Matrix
pub mod Ranks
pub mod Metrics
pub mod Regression
pub mod Run
pub mod Handlers
pub mod Verdicts
pub mod Stored
pub mod Reachable
mod Tests

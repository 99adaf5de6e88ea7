-- ===== src/Assessment.antt =====
-- contexts/assessment: the Assessment aggregate, its workflow templates, the command handlers and
-- the workflow engine.
pub mod Types
pub mod Stage
pub mod Template
pub mod Events
pub mod Entity
pub mod Database
pub mod Handlers
pub mod Engine
mod Tests

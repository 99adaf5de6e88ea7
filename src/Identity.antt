-- ===== src/Identity.antt =====
-- contexts/identity: roles, users, tokens, and the commands for sessions and accounts.
pub mod Types
pub mod User
pub mod Tokens
pub mod Events
pub mod Database
pub mod Auth
pub mod Sessions
pub mod Users
mod Tests

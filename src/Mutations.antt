-- ===== src/Mutations.antt =====
-- Writes to external providers, planned, approved by a person of their own and executed at most once:
-- src/intent_engineering/mutations.
pub mod Texts
pub mod Models
pub mod Profile
pub mod Authorization
pub mod Stores
pub mod Executor
pub mod Planner

-- ===== src/Core.antt =====
-- The semantic core: src/intent_engineering/core.
pub mod Vocabulary
pub mod Graph
pub mod ChangeSet
pub mod Applier

-- ===== src/Sync.antt =====
-- The synchronisation of sources, src/intent_engineering/sync, with the checkpoints of its connectors.
pub mod Checkpoints
pub mod Collection
pub mod Detection

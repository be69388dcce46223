-- ===== src/Reconcile.antt =====
-- Reconciliation: cases, their life cycle, and the detectors of drift
-- (src/intent_engineering/reconcile and src/intent_engineering/core/models/reconciliation.py).
pub mod Cases
pub mod Transition
pub mod Drift
pub mod Detectors
pub mod Resolution

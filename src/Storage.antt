-- ===== src/Storage.antt =====
-- The durable stores: src/intent_engineering/core/models/evidence.py, core/policy/access.py and
-- storage/.
pub mod Evidence
pub mod EvidenceLog
pub mod CaseLog
pub mod Transaction
pub mod History
pub mod Receipts
pub mod MutationStore
pub mod Changes

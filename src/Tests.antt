-- ===== src/Tests.antt =====
-- Runs of the models on small inputs, and the theorems at inputs that meet their hypotheses.
mod Core
mod Detection
mod Reconcile
mod Storage
mod Mutations
mod Planner
mod Changes
mod Sync

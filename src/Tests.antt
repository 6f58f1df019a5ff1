-- ===== src/Tests.antt =====
-- Sample inputs, runs of the model on them, and the theorems at them.
mod Samples
mod PoolRuns
mod RadixRuns
mod Cached
mod ManagerRuns
mod CopyRuns
mod SystemRuns

-- ===== src/Recovery.antt =====
-- crates/harness/src/recovery.rs: what becomes of work that was interrupted.
-- `Decision` has the recovery decision, `Checkpoint` the table of checkpoints and diagnostics and
-- the trigger that writes them, `Lease` the table of worker leases and their supervision, and
-- `ActionState` the evidence that an interrupted governed action left.
pub mod Decision
pub mod Checkpoint
pub mod Lease
pub mod ActionState

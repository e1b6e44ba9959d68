-- ===== src/GovernedActions.antt =====
-- crates/harness/src/governed_actions.rs: the actions that a worker proposes and the harness
-- validates, has approved, and runs.
pub mod Shape
pub mod Scope
pub mod Labels
pub mod Fingerprint
pub mod Records
pub mod Store
pub mod Plan

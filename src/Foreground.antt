-- ===== src/Foreground.antt =====
-- crates/harness/src/foreground.rs: the conversation bindings and the decision on how the pending
-- messages of a conversation are worked off.
pub mod Bindings
pub mod Pending

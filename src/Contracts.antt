-- ===== src/Contracts.antt =====
-- crates/contracts/src/lib.rs: the messages that the harness and its workers exchange.
-- A `Uuid` is its 128-bit value, so the nil id is 0. A `DateTime<Utc>` is the number of nanoseconds
-- since chrono's earliest instant, so that a difference of two does not depend on the origin.
-- A `u8`, `u32`, `u64` or `usize` is its value.
pub mod Action
pub mod Ingress
pub mod Proposal
pub mod Wake

-- ===== src/Approval.antt =====
-- crates/harness/src/approval.rs: requests for the user's approval of a governed action.
-- `Records` has the records and their text labels, `Checks` the validation of a request, of an
-- attempt to resolve one and of its actor, `Store` the table of requests with its operations.
pub mod Records
pub mod Checks
pub mod Store

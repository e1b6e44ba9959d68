-- ===== src/Tests.antt =====
-- Concrete inputs, and the theorems of the components applied to them.
pub mod Samples
mod Actions
mod Approvals
mod Channels
mod Memories
mod Jobs
mod Leases
mod Migrations
mod Recoveries
mod Policies
mod Updates

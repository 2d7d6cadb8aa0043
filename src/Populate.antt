-- ===== src/Populate.antt =====
-- src/populate.rs: building and rebuilding views under a consistent snapshot.
pub mod Group
pub mod Build
pub mod Run
pub mod Grouping
pub mod Splitting
pub mod Frames
pub mod Goodness
pub mod Settled
pub mod Outcomes
pub mod Pending
mod Tests

-- ===== src/Worker.antt =====
-- src/worker.rs: the background worker that applies source transactions to the views.
pub mod Types
pub mod Views
pub mod Catalog
pub mod Shadows
pub mod Planning
pub mod Steps
pub mod Phases
pub mod Executing
pub mod Round
pub mod Poll
pub mod Skip
pub mod Resolving
pub mod Replay
pub mod Outcome
pub mod Unmoved
pub mod Coverage
pub mod NoLoss
pub mod Numbering
pub mod Holding
pub mod Monotone
pub mod Usage
pub mod Drift
pub mod Sample
mod Tests

-- ===== src/Apply.antt =====
-- src/apply.rs: planned changes of a view, and the net effect of one source transaction.
pub mod Types
pub mod Sql
pub mod Resolve
pub mod Recovery
pub mod Actions
pub mod Plan
pub mod Execute
pub mod Net
pub mod Sample
mod Tests

-- ===== src/Client.antt =====
-- clients/rust/nabla-client/src/lib.rs: the client that follows the changes of a view.
pub mod Types
pub mod Fetch
pub mod Events
pub mod Delivery
pub mod Grouping
mod Tests

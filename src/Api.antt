-- ===== src/Api.antt =====
-- src/api.rs: the SQL functions of the extension.
pub mod Closure
pub mod Reaching
pub mod Closed
pub mod RefreshSet
pub mod Changes
pub mod Ordering
pub mod Cutting
pub mod Paging
pub mod Cursor
pub mod Following
pub mod Epochs
pub mod Refusing
pub mod Names
pub mod Waiting
pub mod Ending
pub mod Views
pub mod Recording
pub mod Selecting
pub mod Refreshing
mod Tests
mod CallTests

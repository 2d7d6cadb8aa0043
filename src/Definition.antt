-- ===== src/Definition.antt =====
-- src/definition.rs: what `validate` records of a view.
pub mod Types
pub mod Tree
pub mod Walk
pub mod Quals
pub mod Keys
pub mod JoinKeys
pub mod Catalog
pub mod Targets
pub mod Building
pub mod Shapes
pub mod Validate
pub mod Listing
pub mod Used
pub mod Loading
pub mod Growing
pub mod Stands
pub mod Projecting
pub mod VisibleNames
pub mod Described
mod ValidateTests
mod Tests

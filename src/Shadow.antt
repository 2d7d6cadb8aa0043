-- ===== src/Shadow.antt =====
-- src/shadow.rs: the shadow tables, which hold the columns of base tables that join views need.
pub mod Server
pub mod Columns
pub mod Tables
pub mod Creating
pub mod Wanted
pub mod Rows
pub mod Keeping
pub mod Ensuring
mod Tests

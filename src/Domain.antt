-- ===== src/Domain.antt =====
-- src/model.rs: the domain types, which hold no secret value.
mod Tests
pub mod Items
pub mod Version
pub mod Tested
pub mod Timestamp
pub mod Calendar

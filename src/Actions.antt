-- ===== src/Actions.antt =====
-- src/core/actions.rs: what can be copied from an item, and the rows of its action list.
mod Tests
pub mod Rows
pub mod Complete

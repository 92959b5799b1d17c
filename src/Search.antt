-- ===== src/Search.antt =====
-- src/core/search.rs: search over the items' metadata.
mod Tests
pub mod Index
pub mod Rows
pub mod Ranks
pub mod Order

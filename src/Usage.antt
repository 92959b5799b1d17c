-- ===== src/Usage.antt =====
-- src/core/usage.rs: the table of recently used items, which bounds itself.
mod Tests
pub mod Capacity
pub mod Evicted
pub mod Recent
pub mod Recorded
pub mod Table

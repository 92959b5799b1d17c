-- ===== src/Config.antt =====
-- src/config.rs: the preferences.
mod Tests
pub mod Checked
pub mod Conflicts
pub mod Types
pub mod Defaults
pub mod Validate
pub mod Stored

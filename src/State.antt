-- ===== src/State.antt =====
-- src/core/state.rs: the application state and the reducer that turns messages into effects.
pub mod Types
pub mod Query
pub mod View
pub mod Session
pub mod Copy
pub mod Reveal
pub mod Settings
pub mod Update
pub mod Refresh
pub mod Window
pub mod Clipboard
pub mod Invariant
mod Tests

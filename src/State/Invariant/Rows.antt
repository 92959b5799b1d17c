-- ===== src/State/Invariant/Rows.antt =====
-- The result rows, the index and the selected row agree with the items in every state.
pub mod Parts
pub mod Kept

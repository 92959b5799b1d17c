-- ===== src/State/Invariant/Reveal.antt =====
-- What is revealed stays within the action list, on the field that it was asked for.
pub mod Parts
pub mod Copying
pub mod Kept

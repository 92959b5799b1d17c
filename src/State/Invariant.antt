-- ===== src/State/Invariant.antt =====
-- What every state of the reducer satisfies.
pub mod Rows
pub mod Reveal
pub mod Accounts
pub mod Runs
pub mod Sound

-- ===== src/State/Invariant/Accounts.antt =====
-- The account that the data belongs to, and the bound of the usage table.
pub mod Basics
pub mod Parts
pub mod Kept

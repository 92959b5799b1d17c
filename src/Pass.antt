-- ===== src/Pass.antt =====
-- src/pass: what the program makes of `pass-cli`.
pub mod Error
pub mod Parse
pub mod Backend
pub mod Runner

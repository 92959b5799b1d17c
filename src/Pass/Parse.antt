-- ===== src/Pass/Parse.antt =====
-- src/pass/parse.rs: from pass-cli's output to the program's data.
mod Tests
pub mod Raw
pub mod Visitors
pub mod Fields
pub mod Fill
pub mod Output
pub mod Dedupe
pub mod Selectors
pub mod Answers

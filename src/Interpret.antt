-- ===== src/Interpret.antt =====
-- src/interpret.rs: the interpreter that is driven by a table of rules.
pub mod Chars
pub mod Render
pub mod Table
pub mod Rules
pub mod Phases
pub mod Errors
pub mod Fallback
pub mod Notes
pub mod Matching
mod Tests

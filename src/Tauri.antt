-- ===== src/Tauri.antt =====
-- src/tauri.rs: the task builder and the forwarding of a job's events to a Tauri application.
pub mod Creep
pub mod Forward
pub mod Task
pub mod Await
pub mod Awaited
pub mod Merged
pub mod Called
pub mod Session
pub mod Returned
pub mod Plugin
pub mod Quiet
mod Tests

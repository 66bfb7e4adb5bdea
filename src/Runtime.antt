-- ===== src/Runtime.antt =====
-- src/runtime.rs with src/runtime/query.rs and src/runtime/stream.rs: the runtime's jobs and what
-- can be asked of them.
pub mod Newest
pub mod Jobs
pub mod Query
pub mod Stream
pub mod Admission
pub mod Answers
pub mod Stored
pub mod Config
pub mod Build
pub mod Restarted
pub mod Handle
pub mod Channel
pub mod Polling
pub mod Subscribed
pub mod Lifecycle
mod Tests
mod Trials

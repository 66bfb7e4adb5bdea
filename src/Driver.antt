-- ===== src/Driver.antt =====
-- src/runtime/driver.rs, with src/runtime/wait.rs and src/runtime/raw_output.rs: the task that runs
-- one job.
pub mod World
pub mod Apply
pub mod RawOutput
pub mod Packing
pub mod Process
pub mod Environment
pub mod Mapped
pub mod Unstored
pub mod Between
pub mod Lines
pub mod Verdict
pub mod Wait
pub mod Loop
pub mod Observer
pub mod Faithful
pub mod Coherent
pub mod Protocol
pub mod Samples
mod Tests
mod Trials
pub mod Reading
pub mod Ending
pub mod Due
pub mod Isolation
pub mod Waiting
pub mod Kept
pub mod Judging
pub mod Disabled
pub mod Logged
pub mod Emitting
pub mod Finality
pub mod Output
pub mod Twin

-- ===== src/Driver/Loop.antt =====
-- `process_line`, `run_on_exit` and the loop of `drive_job` in src/runtime/driver.rs. The outside
-- world is a list of ticks: bytes and ends of the pipes, wakes of the wait task, cancellation, and
-- polls of the driver, in any order.
pub mod Task
pub mod Call
pub mod Select
pub mod Run
pub mod Rule
pub mod Frame
pub mod Drive

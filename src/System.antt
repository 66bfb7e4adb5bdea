-- ===== src/System.antt =====
-- The runtime of src/runtime.rs with the drivers of its jobs, src/runtime/driver.rs, in one state.
pub mod State
pub mod Projection
pub mod Permits
pub mod Seats
pub mod Told
pub mod Admitted
pub mod Reached
pub mod Apart
pub mod Heard
pub mod Coming
pub mod Finishing
mod Tests

-- ===== src/Driver/Mapped.antt =====
-- The driver of src/runtime/driver.rs beside the same driver on another view of the channel and of the
-- store: what is done to them is done to the view.
pub mod Steps
pub mod Loop

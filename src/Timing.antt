-- ===== src/Timing.antt =====
-- The component utils_time/.
pub mod Periodic
pub mod TimeOut
mod Tests

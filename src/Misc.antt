-- ===== src/Misc.antt =====
-- The component utils_misc/.
pub mod Bcd
mod Tests

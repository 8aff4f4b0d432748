-- ===== src/Stm32.antt =====
-- The component stm32/: the client of the boot loader.
pub mod Bootloader
pub mod Scripts
pub mod Upload
pub mod Frames
pub mod Replies
mod Tests

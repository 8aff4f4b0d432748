-- ===== src/Txtio.antt =====
-- Text input and output: the component txtio/.
pub mod Inout
pub mod Hex
pub mod Writing
mod Tests

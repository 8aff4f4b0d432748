-- ===== src/Jsmn.antt =====
-- The component jsmn/: the iterator over the tokens of jsmn.
pub mod Tokens
pub mod Skipping
pub mod Getters
pub mod Values
mod Tests

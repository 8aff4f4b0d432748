-- ===== src/Uout.antt =====
-- Output to users: the component uout/.
pub mod Callbacks
pub mod Json
pub mod Plain
pub mod Writer
pub mod Chunks

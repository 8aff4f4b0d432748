-- ===== src/Config.antt =====
-- Settings: the component config_kvs/.
pub mod Items
pub mod Saving
pub mod Settings
mod Tests

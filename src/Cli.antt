-- ===== src/Cli.antt =====
pub mod Line
pub mod Parse
pub mod Process

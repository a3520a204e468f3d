-- ===== src/Config.antt =====
-- src/config: the settings of the daemon.
pub mod Models
pub mod Schema

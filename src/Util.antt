-- ===== src/Util.antt =====
-- windz/util: the configuration file and the daemon.
pub mod Config
pub mod Daemon

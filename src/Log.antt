-- ===== src/Log.antt =====
-- windz/log: the logging parts.
pub mod LogStream
pub mod AsyncLogging
pub mod FileUtil
pub mod LogFile
pub mod Logger

-- ===== src/Log.antt =====
-- hps_sf/log.h and hps_sf/log.cpp: levels, patterns, formats, loggers and their definitions.
pub mod Level
pub mod Tests
pub mod Pattern
pub mod Logger
pub mod Statement
pub mod Listener
pub mod Defines
pub mod Formatting

-- ===== src/Core.antt =====
-- The start of the program, src/core.
pub mod Number
pub mod Variables
pub mod Flags
pub mod InitFile
pub mod Settings
pub mod Startup
pub mod DeviceName
pub mod PcapSink
pub mod Log

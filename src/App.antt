-- ===== src/App.antt =====
-- The applications.
pub mod SbcCommand
pub mod Undo
pub mod Requests
pub mod InitLog
pub mod Configs
pub mod Wifi
pub mod Multinode
pub mod Gps
pub mod Zda
pub mod Nmea

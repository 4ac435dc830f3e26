-- ===== src/Examples.antt =====
-- The theorems at concrete inputs.
pub mod Link
pub mod Ports
pub mod Orders
pub mod Start
pub mod Partitions
pub mod Updates
pub mod Mote
pub mod Starting

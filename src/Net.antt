-- ===== src/Net.antt =====
-- The network devices of src/net.
pub mod Errors
pub mod VirtualPort
pub mod Device
pub mod Gateway
pub mod Ipc

-- ===== src/Platform.antt =====
-- The layer under the stack on Linux: src/platform/linux/platform_linux.cpp.
pub mod Files
pub mod Config
pub mod DfuState
pub mod Image
pub mod Flash
pub mod Dfu
pub mod Rtc

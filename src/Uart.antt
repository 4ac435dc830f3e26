-- ===== src/Uart.antt =====
-- The serial link: src/transports/uart_l2.
pub mod Cobs
pub mod Crc32c
pub mod FrameCodec
pub mod Transport

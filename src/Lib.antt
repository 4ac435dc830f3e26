-- ===== src/Lib.antt =====
-- bm_sbc: Bristlemouth nodes as Linux processes.
--
-- A node is a process whose network device is a set of virtual ports, one for each configured peer,
-- over datagram sockets (src/net/virtual_port_device.cpp). A gateway wraps that device and adds a
-- serial link as its last port (src/net/gateway_device.cpp); frames go over the link with a length
-- and a CRC-32C, stuffed by COBS and ended by a zero byte (src/transports/uart_l2). Local programs
-- give a gateway orders over another socket, as CBOR maps (src/net/gateway_ipc.cpp). What a node is
-- made of comes from its environment, its flags and an init file, and then it starts the stack
-- (src/core/runtime.cpp). Under it lie the files and the clock of the system: the partitions of the
-- configuration, the real-time clock, and updates of the program, which are received into a staging
-- file and swapped in (src/platform/linux/platform_linux.cpp). The gateway's program asks the mote
-- for its configuration and a command, sets the clock from GPS or UTC messages, and passes the time
-- on to a local port (apps/gateway/app_main.cpp).
--
-- Which file models what:
--   Prelude           lists, tests and strings that the others share
--   Uart/Cobs         src/transports/uart_l2/cobs.c: `encode` is cobs_encode, `decode` cobs_decode.
--                     `fault` is a write outside the destination. Spec is stuffing described by
--                     recursion on the data.
--   Uart/Crc32c       src/transports/uart_l2/crc32c.c. Reference divides by the polynomial one bit
--                     at a time.
--   Uart/FrameCodec   src/transports/uart_l2/frame_codec.c: frame_encode and frame_decode
--   Uart/Transport    src/transports/uart_l2/uart_l2_transport.cpp: rx_thread_func is `rx_thread`,
--                     with the log of delivered frames in place of the callback; uart_l2_send, init
--                     and deinit
--   Net/VirtualPort   src/net/virtual_port_device.cpp: vpd_send is `send` and so on,
--                     virtual_port_device_get is `device_get`; SockPath is VIRTUAL_PORT_SOCK_FMT
--   Net/Device        the operations that a network device offers, and the virtual ports as one
--   Net/Gateway       src/net/gateway_device.cpp, over any network device
--   Net/Ipc           src/net/gateway_ipc.cpp: handlers and dispatch; CborQueries is the CBOR
--                     library as a parameter, PowerOff the task that asks for power-off, Socket init
--                     and poll
--   Core/Number       strtoull, strtol and parse_hex64 of src/core/runtime.cpp
--   Core/Variables    the variables of bm_sbc_runtime_init in src/core/runtime.cpp and their
--                     defaults
--   Core/Flags        its environment and command line
--   Core/InitFile     load_init_file
--   Core/Settings     what of these counts, up to the test for a node identity: `configure`
--   Core/Log          src/core/bm_log.c: the logger, its line and its file
--   Core/Startup      the rest of bm_sbc_runtime_init: the calls in order, `start`; Order states what
--                     bm_err_check of the stack does
--   Core/DeviceName   read_device_name of src/core/runtime.cpp
--   Core/PcapSink     src/core/pcap_file_sink.cpp
--   Calendar          timegm and gmtime of the C library, on the Gregorian calendar
--   Platform/Files    files as a function of the path, and the operations on them one by one, so that
--                     `Always` speaks of the state between any two of them
--   Platform/Config   src/platform/linux/platform_linux.cpp: platform_linux_set_cfg_dir,
--                     bm_config_read and bm_config_write
--   Platform/Rtc      bm_rtc_set, bm_rtc_get, bm_rtc_get_micro_seconds
--   Platform/DfuState the static variables of the update, and derive_dfu_paths
--   Platform/Image    validate_staging_elf and validate_staging_marker
--   Platform/Flash    bm_dfu_client_flash_area_open, close, write, erase, get_size
--   Platform/Dfu      platform_linux_dfu_restore_state, bm_dfu_client_set_pending_and_reset,
--                     bm_dfu_client_set_confirmed, bm_dfu_client_fail_update_and_reset
--   App/SbcCommand    apps/gateway/app_main.cpp: run_sbc_command, register_sbc_undo,
--                     sbc_command_reply_cb
--   App/Undo          sbc_undo_cb, called in the course of an update
--   App/Requests      the waits and the repeated requests, sys_info_reply_cb, await_uart_neighbor
--   App/InitLog       write_cbor_value, write_init_log_file, restore_backup, config_map_reply_cb
--   App/Configs       get_mote_system_configs, with the backup that it falls back on
--   App/Wifi          wifi_enabled_reply_cb, get_wifi_enable
--   App/Nmea          nmea_checksum_valid, parse_nmea_rmc, and the sscanf that they use
--   App/Zda           the sentence that utc_callback makes up
--   App/Gps           gprmc_callback and utc_callback, whole
--   App/Multinode     loop of apps/multinode/app_main.cpp
--   Examples          the theorems at concrete inputs
--
-- State is passed explicitly: a step takes the state, and what the system calls in it return, and
-- gives the state afterwards, its result and the calls that others see, in order. A function under a
-- lock is one step. vpd_send takes the lock anew for each slot of a flood, and vpd_disable takes it
-- before and after the receive socket is closed; for these one step stands for a run in which no
-- other call comes between. A descriptor of -1 is `none`. What read, write, recvfrom and the attempts to
-- power off return in turn is a list or a function of the attempt; a list that ends means that the
-- thread still waits. Bytes and words are natural numbers, with the wrap-around written out.
--
-- Loops are recursion on the data they walk over, except these on fuel. The decoder of COBS has one
-- step for each byte of the block and one more, and consumes at least a byte in each. The loop of
-- power-off requests has 32, which the theorem on it shows to be enough for its 31 attempts. The
-- erase of a flash area has one more than its bytes, and a wait for a reply one more than its
-- milliseconds; theorems show both to end within them. A decimal number has 20 digits, as many as
-- 64 bits need. The bits of the checksum are a fixed number of steps, and the calendar walks over
-- the years since 1970.
--
-- Not modelled: the Bristlemouth stack, the CBOR and TOML libraries, and the kernel, which are
-- parameters or whose answers are inputs; the flags of termios; chmod and the fsync of a directory; in
-- which order the kernel brings what is written to the disk;
-- which log lines the other parts write; setup() of the programs, which calls what is modelled in a
-- row; main() and the version constants.
pub mod Prelude
pub mod Uart
pub mod Net
pub mod Calendar
pub mod Platform
pub mod Core
pub mod Examples
pub mod App

-- ===== src/Devices.antt =====
-- devices: the queue of bytes between interrupt handlers and threads.
pub mod Intq

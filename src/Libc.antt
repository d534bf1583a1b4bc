-- ===== src/Libc.antt =====
-- lib: the C library that kernel and user programs share.
pub mod Blocks
pub mod Strings
pub mod Printf

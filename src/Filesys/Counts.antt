-- ===== src/Filesys/Counts.antt =====
-- The counters of open inodes against the files that are open.
pub mod Defs
pub mod Files
pub mod Inodes
pub mod Close
pub mod Denied
mod Tests

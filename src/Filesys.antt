-- ===== src/Filesys.antt =====
-- filesys: inodes, open files and the free map.
pub mod Inode
pub mod Store
pub mod OpenInodes
pub mod File
pub mod Counts
pub mod FreeMap
pub mod Directory
pub mod Root

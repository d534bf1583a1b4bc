-- ===== src/Filesys/FreeMap.antt =====
-- filesys/free-map.c above lib/kernel/bitmap.c, and inode_create above it.
pub mod Allocate
pub mod Create
mod Tests

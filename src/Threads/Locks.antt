-- ===== src/Threads/Locks.antt =====
-- Mutual exclusion by the locks of synch.c.
pub mod Defs
pub mod Taking
pub mod Moves
pub mod Exclusion

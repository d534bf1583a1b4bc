-- ===== src/Threads.antt =====
-- threads/: the scheduler of thread.c and the semaphores and locks of synch.c.
pub mod Kernel
pub mod Synch
pub mod System
pub mod Queues
pub mod Locks
pub mod Vaddr
pub mod Palloc
pub mod Malloc
mod Tests

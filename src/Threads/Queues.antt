-- ===== src/Threads/Queues.antt =====
-- The queues of the scheduler: where a thread's list element `elem` is linked.
pub mod Defs
pub mod Switch
pub mod Park
pub mod Create
pub mod Semaphores
pub mod Steps

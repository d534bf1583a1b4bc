-- ===== src/Userprog.antt =====
-- userprog: processes and what they run.
pub mod Children
pub mod Stack
pub mod Descriptors
pub mod Handler
pub mod Load

-- ===== src/KernelLib.antt =====
-- lib/kernel: the kernel's data structures.
pub mod Bitmap
pub mod List
pub mod Hash

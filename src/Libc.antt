-- ===== src/Libc.antt =====
-- Libc/Libc: the C library that the kernel is linked with.
pub mod Strcmp
pub mod Strncmp
pub mod Compare
pub mod Time
pub mod Printf
mod Examples

-- ===== src/BootArgs.antt =====
-- Kernel/Platform/bootargs.c: the arguments on the boot command line.
pub mod Copy
pub mod Number
pub mod Parse
pub mod Digits
pub mod Value
pub mod Safe
pub mod Ends
pub mod Stored
pub mod Found
mod Examples

-- ===== src/MemoryMap.antt =====
-- The memory map in Kernel/Kernel/i386/i386_vm_init.c: from the ranges of the firmware to the
-- regions of pages that the kernel allocates from.
pub mod Range
pub mod Scan
pub mod Size
pub mod Coverage
pub mod Offered
pub mod Marked
pub mod Table
pub mod Firmware
pub mod Pages
pub mod Capped
mod Examples

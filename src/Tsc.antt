-- ===== src/Tsc.antt =====
-- Kernel/Kernel/i386/tsc.c: the frequencies of the bus and of the time stamp counter.
pub mod Factors
pub mod Setup
pub mod Accuracy
mod Examples

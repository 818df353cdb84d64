-- ===== src/Rtclock.antt =====
-- The real-time clock of Kernel/Kernel/i386/rtclock.c and of the routines in Kernel/Kernel/asmlib.S
-- that it calls.
pub mod Nanotime
pub mod Deadline
pub mod Scale
pub mod Accuracy
pub mod Timer
mod Examples

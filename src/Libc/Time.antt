-- ===== src/Libc/Time.antt =====
-- Libc/Libc/time/time.c: the real time clock, the seconds since 1970, and the broken-down time.
pub mod Cmos
pub mod Atomic
pub mod Encode
pub mod Calendar
pub mod Seconds
pub mod Weekday
mod Examples

-- ===== src/Lapic.antt =====
-- Kernel/Kernel/i386/lapic.c and lapic.h: the local interrupt controller of a processor.
pub mod State
pub mod Ops
pub mod CpuMap
pub mod Init
pub mod Interrupt
pub mod Registers
pub mod Inverse
pub mod Eoi
pub mod Delivery
pub mod Ready
pub mod Start
mod Examples

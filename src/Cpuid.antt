-- ===== src/Cpuid.antt =====
-- Kernel/Kernel/i386/cpuid.c and cpuid.h: what the kernel finds out about the processor.
pub mod Regs
pub mod Table
pub mod Info
pub mod Generic
pub mod Leaves
pub mod Family
pub mod Cache
pub mod Setup
pub mod Vmm
pub mod Signature
pub mod Descriptors
pub mod Described
pub mod Published
pub mod Untouched
pub mod Boot
pub mod Hypervisor
mod Samples
mod Examples

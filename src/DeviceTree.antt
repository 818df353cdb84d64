-- ===== src/DeviceTree.antt =====
-- Kernel/Platform/DeviceTree.c: the flattened device tree that the boot loader leaves in memory.
pub mod Memory
pub mod Tree
pub mod Layout
pub mod Node
pub mod Skip
pub mod Entry
pub mod Properties
pub mod Value
pub mod Child
pub mod Path
pub mod Search
pub mod Preorder
pub mod Resolve
pub mod Lookup
pub mod Iterator
pub mod Enumerate
mod Sample
mod Examples
mod IterationExamples
pub mod Linked
pub mod EachProperty
pub mod Scopes

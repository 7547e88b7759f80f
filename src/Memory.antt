-- ===== src/Memory.antt =====
-- src/mvm/runtime_memory.cc: the managed heap, its allocator and its collector.
pub mod Words
pub mod Header
pub mod Registry
pub mod Active
pub mod Invariant
pub mod Slab
pub mod System
pub mod Find
pub mod Mark
pub mod Sweep
pub mod Collect
pub mod Allocate
pub mod Entry
mod Sample
mod Tests

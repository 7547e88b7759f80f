-- ===== src/Managed.antt =====
-- managed_state.cc: which pointers are null, raw, managed objects or managed arrays, by a data-flow
-- analysis of a module. A module of LLVM is what its accessors answer; a value or function is its
-- address.
pub mod State
pub mod Module
pub mod Store
pub mod Visit
pub mod Metadata
mod Tests

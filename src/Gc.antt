-- ===== src/Gc.antt =====
-- gc.cc: the parts of the collector's glue that are modelled.
pub mod Requests
pub mod Safepoint
pub mod Leaf
pub mod Polls
mod Tests

-- ===== src/Space.antt =====
-- Disk space reservation (block_alloc.c).
pub mod State
pub mod Transfer
pub mod Invariant
pub mod Refine
pub mod Grab
pub mod Alloc
pub mod Reserve
pub mod Mutex
pub mod Stages
pub mod Allocation

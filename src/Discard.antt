-- ===== src/Discard.antt =====
-- Discarding of freed blocks (discard.c) and the lists of extents that it sorts (blocknrlist.c).
pub mod Extents
pub mod Atom
pub mod Cover
pub mod Joined
pub mod Commit
pub mod Adding

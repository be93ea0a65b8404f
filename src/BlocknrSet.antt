-- ===== src/BlocknrSet.antt =====
-- Sets of block numbers and of pairs of them (blocknrset.c): a list of fixed-size entries, each of
-- which holds singles from the front of its array and pairs from the back.
pub mod Entry
pub mod Ops
pub mod Contents
pub mod Add
pub mod Merge
pub mod Iterate

-- ===== src/Bitmap.antt =====
-- The bitmap space allocator (plugin/space/bitmap.c).
pub mod Bits
pub mod Scan
pub mod ScanBack
pub mod Masks
pub mod Ranges
pub mod Checksum
pub mod Adler
pub mod Node
pub mod Forward
pub mod Search
pub mod Backward
pub mod BackwardLaws
pub mod NodeSearch
pub mod Alloc
pub mod Places
pub mod AllocLaws
pub mod Passes
pub mod Device
pub mod Dealloc
pub mod Bound
pub mod Client
pub mod Check
pub mod Says
pub mod CheckLaws

-- ===== src/Bitmap/Client.antt =====
-- reiser4_alloc_blocks over the bitmap: the bitmap meets what block_alloc.c asks of an allocator.
use reiser.Base.{ℕ, ◌+◌, ◌^◌, ◌≤◌, ◌<◌, ◌≡◌, false}
use reiser.Space.State.{Fs, Flags}
use reiser.Space.Grab.{Status}
use reiser.Space.Alloc.{Hint, alloc_blocks}
use reiser.Space.Invariant.{IsValid}
use reiser.Space.Reserve.{Committed}
use reiser.Space.Allocation.{Needs, Completed, alloc_blocks-Completed}
use reiser.Bitmap.Bits.{Bits}
use reiser.Bitmap.Alloc.{Nodes, bitmap_allocator}
use reiser.Bitmap.Bound.{alloc_blocks_bitmap-Within}

-- reiser4_alloc_blocks on the bitmap allocator, whatever the bitmaps hold, on a writable file system with
-- valid counters, of at least one and fewer than 2^31 blocks that are counted in their stage (or not
-- counted at all) and do not wrap with the reserve, and where a commit of all transactions leaves
-- valid counters, the same reserve and a writable file system. It always returns, with valid counters.
-- On success the used blocks are more by the length of the region, which is no longer than the request
-- (by none where the blocks were counted as used), an uncounted request has taken its blocks from
-- the free ones and owns those that it did not use, a request for grabbed blocks owns fewer by that
-- length, and no other block has left the free ones; on failure the used, free and grabbed blocks
-- and the atom are as before. Where the blocks are uncounted, not covered, and the flags let it commit,
-- this may be said of the state that the commit left instead of the one before the call.
pub bitmap_allocator-Completed :
    (blocksize : ℕ) (prepared : ℕ → Status) (find : Bits → ℕ → ℕ → ℕ) (block_count : ℕ)
    (commit_all : Fs → Fs) (contexts atoms needed : ℕ) (flags : Flags) (fs : Fs) (nodes : Nodes)
    (hint : Hint) (c : Committed fs (commit_all fs))
    → IsValid contexts atoms fs
    → 1 ≤ needed
    → needed < 2 ^ 31
    → needed + fs.sb.blocks_reserved < 2 ^ 64
    → fs.sb.rdonly ≡ false
    → Needs hint.block_stage needed flags fs
    → Completed contexts atoms needed hint.block_stage flags fs (commit_all fs) c (
        alloc_blocks
          (bitmap_allocator blocksize prepared find block_count)
          commit_all
          fs
          nodes
          hint
          needed
          flags)
bitmap_allocator-Completed blocksize prepared find block_count commit_all contexts atoms needed
      flags fs nodes hint c v m n small w h =
    alloc_blocks-Completed (bitmap_allocator blocksize prepared find block_count) commit_all
      (λ s hint' k one.
        alloc_blocks_bitmap-Within blocksize prepared k one find block_count s hint')
      contexts atoms needed flags fs nodes hint c v m n small w h

-- ===== src/Bitmap/Alloc.antt =====
-- The space allocator over all bitmap blocks: reiser4_alloc_blocks_bitmap, reiser4_dealloc_blocks_bitmap
-- and reiser4_check_blocks_bitmap. The nodes are an array; block numbers are below 2^63, so that no
-- sum of them wraps, except for that with the distance of a hint, which any caller may choose.
use reiser.Base.{ℕ, zero, suc, ◌+◌, ◌-◌, ◌*◌, ◌/◌, ◌%◌, ◌||◌, if◌then◌else◌, leb, ◌==◌, not, add64}
use reiser.Space.Grab.{Status, enospc}
use reiser.Space.Alloc.{Hint, Region, no_region, region, Allocator}
use reiser.Bitmap.Bits.{Bits}
use reiser.Bitmap.Masks.{clear_bits}
use reiser.Bitmap.Node.{
  Bnode, bnode_working_data, with_data, Len, nothing, found, error, limit, adjust_first_zero_bit,
  load_and_lock_bnode, search_one_bitmap_forward,
}
use reiser.Bitmap.Backward.{search_one_bitmap_backward}

abbrev pub Nodes : Type 0
Nodes = ℕ → Bnode

abbrev pub put_node : Nodes → ℕ → Bnode → Nodes
put_node nodes bmap bnode i = if i == bmap then bnode else nodes i

unfoldable pub bmap_bit_count : ℕ → ℕ
bmap_bit_count blocksize = (blocksize - 4) * 8

unfoldable pub get_nr_bmap : (bits block_count : ℕ) → ℕ
get_nr_bmap bits block_count = (block_count - 1) / bits + 1

-- The number of the bitmap and the offset in it; `bits` is the bit count of a bitmap.
unfoldable pub parse_blocknr : (bits block : ℕ) → ℕ × ℕ
parse_blocknr bits block = (block / bits, block % bits)

-- `wpage` after reiser4_clear_bits
unfoldable pub free_bits : Bnode → ℕ → ℕ → Bnode
unfolding clear_bits with_data
free_bits bnode start end = record bnode {
  wpage = with_data bnode.wpage (clear_bits (bnode_working_data bnode) start end);
}

-- The caller's length and start, or the error.
abbrev pub answer_region : Nodes × ℕ × Len → Region × Nodes
answer_region (nodes, start, nothing) = (no_region enospc, nodes)
answer_region (nodes, start, found n) = (region start n, nodes)
answer_region (nodes, start, error e) = (no_region e, nodes)

-- `prepared` says for each bitmap whether its block can be read.
module _ (blocksize : ℕ) (prepared : ℕ → Status) where
  abbrev bits : ℕ
  bits = bmap_bit_count blocksize

  -- the loop of bitmap_alloc_backward, with the bitmaps that are left
  unfoldable pub backward_bitmaps :
      ℕ → Nodes → (bmap offset end_offset min_len max_len : ℕ) → Nodes × ℕ × Len
  unfolding bmap_bit_count search_one_bitmap_backward
  backward_bitmaps zero nodes bmap offset end_offset min_len max_len =
      let (bnode, o, len) =
        search_one_bitmap_backward blocksize (prepared bmap) (nodes bmap) offset end_offset min_len
          max_len in
      (put_node nodes bmap bnode, bmap * bits + o, len)
  backward_bitmaps (suc left) nodes bmap offset end_offset min_len max_len =
      let (bnode, o, len) =
        search_one_bitmap_backward blocksize (prepared bmap) (nodes bmap) offset 0 min_len
          max_len in
      let nodes' = put_node nodes bmap bnode in
      elim len [
        | nothing ↦ backward_bitmaps left nodes' (bmap - 1) (bits - 1) end_offset min_len max_len
        | found n ↦ (nodes', bmap * bits + o, found n)
        | error e ↦ (nodes', bmap * bits + o, error e)
      ]

  unfoldable pub bitmap_alloc_backward : Nodes → (start end min_len max_len : ℕ) → Nodes × ℕ × Len
  unfolding parse_blocknr backward_bitmaps bmap_bit_count
  bitmap_alloc_backward nodes start end min_len max_len =
      let (bmap, offset) = parse_blocknr bits start in
      let (end_bmap, end_offset) = parse_blocknr bits end in
      backward_bitmaps (bmap - end_bmap) nodes bmap offset end_offset min_len max_len

  unfoldable pub alloc_blocks_backward : Nodes → Hint → ℕ → Region × Nodes
  unfolding bitmap_alloc_backward
  alloc_blocks_backward nodes hint needed =
      let search_end =
        if hint.max_dist == 0
        then 0
        else if leb hint.blk hint.max_dist
        then 0
        else hint.blk - hint.max_dist in
      answer_region (bitmap_alloc_backward nodes hint.blk search_end 1 needed)

  unfoldable pub dealloc_blocks_bitmap : Nodes → (start len : ℕ) → Nodes
  unfolding parse_blocknr load_and_lock_bnode free_bits adjust_first_zero_bit bmap_bit_count
  dealloc_blocks_bitmap nodes start len =
      let (bmap, offset) = parse_blocknr bits start in
      let (_, bnode) = load_and_lock_bnode blocksize (prepared bmap) (nodes bmap) in
      put_node nodes bmap (adjust_first_zero_bit (free_bits bnode offset (offset + len)) offset)

  module _ (find_next_zero_bit_le : Bits → ℕ → ℕ → ℕ) where
    -- the loop of bitmap_alloc_forward, with the bitmaps that are left
    unfoldable pub forward_bitmaps :
        ℕ → Nodes → (bmap offset end_offset min_len max_len : ℕ) → Nodes × ℕ × Len
    unfolding bmap_bit_count search_one_bitmap_forward
    forward_bitmaps zero nodes bmap offset end_offset min_len max_len =
        let (bnode, o, len) =
          search_one_bitmap_forward find_next_zero_bit_le blocksize (prepared bmap) (nodes bmap)
            offset end_offset min_len max_len in
        (put_node nodes bmap bnode, bmap * bits + o, len)
    forward_bitmaps (suc left) nodes bmap offset end_offset min_len max_len =
        let (bnode, o, len) =
          search_one_bitmap_forward find_next_zero_bit_le blocksize (prepared bmap) (nodes bmap)
            offset bits min_len max_len in
        let nodes' = put_node nodes bmap bnode in
        elim len [
          | nothing ↦ forward_bitmaps left nodes' (bmap + 1) 0 end_offset min_len max_len
          | found n ↦ (nodes', bmap * bits + o, found n)
          | error e ↦ (nodes', bmap * bits + o, error e)
        ]

    unfoldable pub bitmap_alloc_forward : Nodes → (start end min_len max_len : ℕ) → Nodes × ℕ × Len
    unfolding parse_blocknr forward_bitmaps bmap_bit_count
    bitmap_alloc_forward nodes start end min_len max_len =
        let (bmap, offset) = parse_blocknr bits start in
        let (end_bmap, end_offset) = parse_blocknr bits (end - 1) in
        forward_bitmaps (end_bmap - bmap) nodes bmap offset (end_offset + 1) min_len max_len

    -- The second pass searches from 0 to where the first one ended.
    unfoldable pub second_pass : Hint → ℕ → Nodes × ℕ × Len → Nodes × ℕ × Len
    unfolding bitmap_alloc_forward
    second_pass hint needed (nodes, start, nothing) =
        if not (hint.max_dist == 0) || start == 0
        then (nodes, start, nothing)
        else bitmap_alloc_forward nodes 0 start 1 needed
    second_pass hint needed (nodes, start, found n) = (nodes, start, found n)
    second_pass hint needed (nodes, start, error e) = (nodes, start, error e)

    unfoldable pub alloc_blocks_forward : (block_count : ℕ) → Nodes → Hint → ℕ → Region × Nodes
    unfolding bitmap_alloc_forward second_pass limit
    alloc_blocks_forward block_count nodes hint needed =
        let search_end =
          if hint.max_dist == 0
          then block_count
          else limit (add64 hint.blk hint.max_dist) block_count in
        answer_region
          (second_pass hint needed (bitmap_alloc_forward nodes hint.blk search_end 1 needed))

    unfoldable pub alloc_blocks_bitmap : (block_count : ℕ) → Nodes → Hint → ℕ → Region × Nodes
    unfolding alloc_blocks_forward alloc_blocks_backward
    alloc_blocks_bitmap block_count nodes hint needed =
        if hint.backward
        then alloc_blocks_backward nodes hint needed
        else alloc_blocks_forward block_count nodes hint needed

    -- The allocator with which reiser4_alloc_blocks works.
    abbrev pub bitmap_allocator : (block_count : ℕ) → Allocator Nodes
    bitmap_allocator block_count = record {
      alloc = alloc_blocks_bitmap block_count;
      dealloc = dealloc_blocks_bitmap;
    }

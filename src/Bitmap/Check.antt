-- ===== src/Bitmap/Check.antt =====
-- reiser4_check_blocks_bitmap: whether blocks are all in use, or all free. Its answer is 1 or 0.
use reiser.Base.{ℕ, zero, suc, ◌+◌, ◌-◌, Bool, false, Option, none, some, if◌then◌else◌, leb, ◌==◌}
use reiser.Space.Grab.{Status}
use reiser.Bitmap.Bits.{Bits, find_next_set_bit}
use reiser.Bitmap.Node.{Bnode, checksum_bits, load_and_lock_bnode, find_next_zero_bit}
use reiser.Bitmap.Alloc.{Nodes, put_node, bmap_bit_count, parse_blocknr}

-- The last block; no length stands for one block.
abbrev pub last_block : (start : ℕ) → Option ℕ → ℕ
last_block start none = start
last_block start (some len) = start + len - 1

unfoldable pub check_loaded :
    (Bits → ℕ → ℕ → ℕ) → (desired : Bool) → Bnode → (start_offset end_offset : ℕ) → Bool
unfolding find_next_zero_bit find_next_set_bit
check_loaded find_next_zero_bit_le desired bnode start_offset end_offset =
    if desired
    then leb end_offset
        (find_next_zero_bit find_next_zero_bit_le checksum_bits bnode.wpage end_offset start_offset)
    else leb end_offset (find_next_set_bit checksum_bits bnode.wpage end_offset start_offset)

module _ (blocksize : ℕ) (prepared : ℕ → Status) (find_next_zero_bit_le : Bits → ℕ → ℕ → ℕ)
    (desired : Bool) where
  unfoldable pub check_blocks_one_bitmap : Nodes → (bmap start_offset end_offset : ℕ) → Bool × Nodes
  unfolding load_and_lock_bnode check_loaded
  check_blocks_one_bitmap nodes bmap start_offset end_offset =
      let (_, bnode) = load_and_lock_bnode blocksize (prepared bmap) (nodes bmap) in
      (
        check_loaded find_next_zero_bit_le desired bnode start_offset end_offset,
        put_node nodes bmap bnode,
      )

  -- the loop, with the bitmaps that are left
  unfoldable pub check_bitmaps : ℕ → Nodes → (bmap offset end_offset : ℕ) → Bool × Nodes
  unfolding check_blocks_one_bitmap bmap_bit_count
  check_bitmaps zero nodes bmap offset end_offset =
      check_blocks_one_bitmap nodes bmap offset end_offset
  check_bitmaps (suc left) nodes bmap offset end_offset =
      let (holds, nodes') = check_blocks_one_bitmap nodes bmap offset (bmap_bit_count blocksize) in
      let rest = check_bitmaps left nodes' (bmap + 1) 0 end_offset in
      if holds then rest else (false, nodes')

  unfoldable pub check_blocks_bitmap : Nodes → (start : ℕ) → Option ℕ → Bool × Nodes
  unfolding check_bitmaps parse_blocknr bmap_bit_count
  check_blocks_bitmap nodes start len =
      let end = last_block start len in
      let (bmap, offset) = parse_blocknr (bmap_bit_count blocksize) start in
      let (end_bmap, end_offset) =
        if end == start then (bmap, offset) else parse_blocknr (bmap_bit_count blocksize) end in
      check_bitmaps (end_bmap - bmap) nodes bmap offset (end_offset + 1)

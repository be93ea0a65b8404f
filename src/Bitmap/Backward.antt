-- ===== src/Bitmap/Backward.antt =====
-- The backward search in one bitmap block: search_one_bitmap_backward. Offsets are below the number of
-- bits of a block and lengths below 2^31, so that no sum wraps; what would be below 0 stands on the
-- other side of a test.
use reiser.Base.{ℕ, zero, suc, ◌+◌, ◌-◌, Option, none, some, if◌then◌else◌, ltb, leb}
use reiser.Space.Grab.{Status, success, failed}
use reiser.Bitmap.Bits.{find_last_set_bit, find_last_zero_bit}
use reiser.Bitmap.Node.{
  Bnode, bnode_working_data, Len, nothing, found, error, take_bits, load_and_lock_bnode,
}

-- Where the search for a set bit stops.
abbrev pub search_end_of : (start end_offset max_len : ℕ) → ℕ
search_end_of start end_offset max_len =
    if ltb (end_offset + max_len - 1) start then start + 1 - max_len else end_offset

-- `end`, one past the set bit that was found, or the place where the search stopped
abbrev pub region_end : (search_end : ℕ) → Option ℕ → ℕ
region_end search_end none = search_end
region_end search_end (some set) = set + 1

abbrev pub at_least : ℕ → ℕ → ℕ
at_least low n = if ltb n low then low else n

-- The loop, from the zero bit that was found: each round moves `start` down, so that one more than
-- the offset it begins at is fuel enough.
unfoldable pub backward_loop : ℕ → Bnode → (start end_offset min_len max_len : ℕ) → Option (ℕ × ℕ)
unfolding find_last_set_bit find_last_zero_bit
backward_loop zero bnode start end_offset min_len max_len = none
backward_loop (suc fuel) bnode start end_offset min_len max_len =
    elim (find_last_zero_bit (bnode_working_data bnode) end_offset start) [
      | none ↦ none
      | some start' ↦
          let search_end = search_end_of start' end_offset max_len in
          let end =
            region_end search_end
              (find_last_set_bit (bnode_working_data bnode) search_end start') in
          let rest = backward_loop fuel bnode (end - 1) end_offset min_len max_len in
          if ltb (start' + 1) (end_offset + min_len)
          then none
          else if leb (end + min_len) (start' + 1)
          then some (at_least search_end end, start' + 1)
          else if leb end end_offset
          then none
          else rest
    ]

-- The node, the offset and the answer, from how the loop ended.
abbrev pub take_found : Bnode → ℕ → Option (ℕ × ℕ) → Bnode × ℕ × Len
take_found bnode start_offset none = (bnode, start_offset, nothing)
take_found bnode start_offset (some (start, end)) =
    (take_bits bnode start end, start, found (end - start))

unfoldable pub search_one_bitmap_backward :
    ℕ → Status → Bnode → (start_offset end_offset min_len max_len : ℕ) → Bnode × ℕ × Len
unfolding load_and_lock_bnode backward_loop take_bits
search_one_bitmap_backward blocksize prepared bnode start_offset end_offset min_len max_len =
    let (ret, bnode') = load_and_lock_bnode blocksize prepared bnode in
    elim ret [
      | failed e ↦ (bnode', start_offset, error e)
      | success ↦
          take_found bnode' start_offset
            (backward_loop (start_offset + 1) bnode' start_offset end_offset min_len max_len)
    ]

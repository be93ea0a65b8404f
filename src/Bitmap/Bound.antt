-- ===== src/Bitmap/Bound.antt =====
-- The bitmap as the allocator behind reiser4_alloc_blocks: it never hands out more than it is asked for.
use reiser.Base.{
  ℕ, zero, suc, ◌+◌, ◌-◌, ◌*◌, ◌≤◌, Bool, false, ◌||◌, Option, none, some, if◌then◌else◌, if_cases,
  ltb, leb, ◌==◌, not, arith,
}
use reiser.Space.Grab.{Status, success, failed}
use reiser.Space.Alloc.{Hint, Region}
use reiser.Space.Stages.{Within}
use reiser.Bitmap.Bits.{Bits, find_last_set_bit, find_last_zero_bit, find_next_set_bit}
use reiser.Bitmap.Node.{
  Bnode, bnode_working_data, Len, nothing, found, error, limit, find_next_zero_bit, forward_loop,
  answer, search_loaded_forward, search_one_bitmap_forward, load_and_lock_bnode, checksum_bits,
}
use reiser.Bitmap.Forward.{limit-le}
use reiser.Bitmap.Backward.{
  search_end_of, region_end, at_least, backward_loop, take_found, search_one_bitmap_backward,
}
use reiser.Bitmap.Alloc.{
  Nodes, put_node, bmap_bit_count, forward_bitmaps, backward_bitmaps, bitmap_alloc_forward,
  bitmap_alloc_backward, answer_region, second_pass, alloc_blocks_forward, alloc_blocks_backward,
  alloc_blocks_bitmap,
}

abbrev IsShort : ℕ → Option (ℕ × ℕ) → Type 0
IsShort max_len none = Unit
IsShort max_len (some (s, e)) = e ≤ s + max_len

abbrev IsBounded : ℕ → Len → Type 0
IsBounded max_len (found n) = n ≤ max_len
IsBounded max_len nothing = Unit
IsBounded max_len (error e) = Unit

answer-IsBounded :
    (max_len offset : ℕ) (r : Bnode × Option (ℕ × ℕ))
    → IsShort max_len r.1
    → IsBounded max_len (answer offset r).2
answer-IsBounded max_len offset (bnode, none) h = tt
answer-IsBounded max_len offset (bnode, some (s, e)) h = omega (arith, h)

take_found-IsBounded :
    (max_len : ℕ) (bnode : Bnode) (start : ℕ) (o : Option (ℕ × ℕ))
    → IsShort max_len o
    → IsBounded max_len (take_found bnode start o).2
take_found-IsBounded max_len bnode start none h = tt
take_found-IsBounded max_len bnode start (some (s, e)) h = omega (arith, h)

forward_loop-IsShort :
    (find : Bits → ℕ → ℕ → ℕ) (fuel : ℕ) (bnode : Bnode) (start : ℕ) (flag : Bool)
    (max_offset min_len max_len : ℕ)
    → IsShort max_len (forward_loop find fuel bnode start flag max_offset min_len max_len).1
unfolding forward_loop
forward_loop-IsShort find zero bnode start flag max_offset min_len max_len = tt
forward_loop-IsShort find (suc fuel) bnode start flag max_offset min_len max_len =
    let s = find_next_zero_bit find checksum_bits bnode.wpage max_offset start in
    let bnode' = record bnode { first_zero_bit = if flag then s else bnode.first_zero_bit } in
    let top = limit (s + max_len) max_offset in
    let end = find_next_set_bit checksum_bits bnode.wpage top s in
    let P = λ (r : Bnode × Option (ℕ × ℕ)). IsShort max_len r.1 in
    if_cases P (ltb (start + min_len) max_offset)
      (λ _.
        if_cases P (leb max_offset s) (λ _. tt)
          (λ _.
            if_cases P (leb (s + min_len) end)
              (λ _. omega (arith, limit-le (s + max_len) max_offset, limit-le end top))
              (λ _.
                forward_loop-IsShort find fuel bnode' (end + 1) false max_offset min_len max_len)))
      (λ _. tt)

backward_loop-IsShort :
    (fuel : ℕ) (bnode : Bnode) (start end_offset min_len max_len : ℕ)
    → 1 ≤ max_len
    → IsShort max_len (backward_loop fuel bnode start end_offset min_len max_len)
unfolding backward_loop
backward_loop-IsShort zero bnode start end_offset min_len max_len h = tt
backward_loop-IsShort (suc fuel) bnode start end_offset min_len max_len h =
    let P = IsShort max_len in
    elim (find_last_zero_bit (bnode_working_data bnode) end_offset start)
      as (λ o. IsShort max_len (elim o [
        | none ↦ none
        | some z ↦
            let search_end = search_end_of z end_offset max_len in
            let end =
              region_end search_end (find_last_set_bit (bnode_working_data bnode) search_end z) in
            if ltb (z + 1) (end_offset + min_len)
            then none
            else if leb (end + min_len) (z + 1)
            then some (at_least search_end end, z + 1)
            else if leb end end_offset
            then none
            else backward_loop fuel bnode (end - 1) end_offset min_len max_len
      ])) [
        | none ↦ tt
        | some z ↦
            let search_end = search_end_of z end_offset max_len in
            let end =
              region_end search_end (find_last_set_bit (bnode_working_data bnode) search_end z) in
            if_cases P (ltb (z + 1) (end_offset + min_len)) (λ _. tt)
              (λ _.
                if_cases P (leb (end + min_len) (z + 1)) (λ _. ground arith)
                  (λ _.
                    if_cases P (leb end end_offset) (λ _. tt)
                      (λ _.
                        backward_loop-IsShort fuel bnode (end - 1) end_offset min_len max_len h)))
      ]

search_forward-IsBounded :
    (find : Bits → ℕ → ℕ → ℕ) (blocksize : ℕ) (prepared : Status) (bnode : Bnode)
    (offset max_offset min_len max_len : ℕ)
    → IsBounded max_len
        (search_one_bitmap_forward find blocksize prepared bnode offset max_offset min_len
          max_len).2
unfolding search_one_bitmap_forward search_loaded_forward
search_forward-IsBounded find blocksize prepared bnode offset max_offset min_len max_len =
    let q = load_and_lock_bnode blocksize prepared bnode in
    let skip = leb offset q.1.first_zero_bit in
    let start = if skip then q.1.first_zero_bit else offset in
    elim q.0
      as (λ ret.
        IsBounded max_len
          (elim ret as (λ _. Bnode × ℕ × Len) [
            | failed e ↦ (q.1, offset, error e)
            | success ↦ search_loaded_forward find q.1 offset max_offset min_len max_len
          ]).2) [
            | failed e ↦ tt
            | success ↦
                answer-IsBounded max_len offset
                  (forward_loop find max_offset q.1 start skip max_offset min_len max_len)
                  (forward_loop-IsShort find max_offset q.1 start skip max_offset min_len max_len)
          ]

search_backward-IsBounded :
    (blocksize : ℕ) (prepared : Status) (bnode : Bnode) (start end_offset min_len max_len : ℕ)
    → 1 ≤ max_len
    → IsBounded max_len
        (search_one_bitmap_backward blocksize prepared bnode start end_offset min_len max_len).2
unfolding search_one_bitmap_backward
search_backward-IsBounded blocksize prepared bnode start end_offset min_len max_len h =
    let q = load_and_lock_bnode blocksize prepared bnode in
    let o = backward_loop (start + 1) q.1 start end_offset min_len max_len in
    elim q.0
      as (λ ret.
        IsBounded max_len
          (elim ret as (λ _. Bnode × ℕ × Len) [
            | failed e ↦ (q.1, start, error e)
            | success ↦ take_found q.1 start o
          ]).2) [
            | failed e ↦ tt
            | success ↦
                take_found-IsBounded max_len q.1 start o
                  (backward_loop-IsShort (start + 1) q.1 start end_offset min_len max_len h)
          ]

-- The bitmaps are searched in turn, until one search finds something.
in_turn-IsBounded :
    (max_len bits : ℕ) (nodes : Nodes) (bmap : ℕ) (r : Bnode × ℕ × Len)
    (rest : Nodes → Nodes × ℕ × Len)
    → IsBounded max_len r.2
    → ((nodes' : Nodes) → IsBounded max_len (rest nodes').2)
    → let nodes' = put_node nodes bmap r.0 in
      IsBounded max_len
        (elim r.2 as (λ _. Nodes × ℕ × Len) [
          | nothing ↦ rest nodes'
          | found n ↦ (nodes', bmap * bits + r.1, found n)
          | error e ↦ (nodes', bmap * bits + r.1, error e)
        ]).2
in_turn-IsBounded max_len bits nodes bmap (bnode, o, nothing) rest h later =
    later (put_node nodes bmap bnode)
in_turn-IsBounded max_len bits nodes bmap (bnode, o, found n) rest h later = h
in_turn-IsBounded max_len bits nodes bmap (bnode, o, error e) rest h later = tt

answer_region-Within :
    (max_len : ℕ) (r : Nodes × ℕ × Len) → IsBounded max_len r.2 → Within max_len (answer_region r).0
answer_region-Within max_len (nodes, s, nothing) h = tt
answer_region-Within max_len (nodes, s, found n) h = h
answer_region-Within max_len (nodes, s, error e) h = tt

module _ (blocksize : ℕ) (prepared : ℕ → Status) (max_len : ℕ) (some_len : 1 ≤ max_len) where
  abbrev bits : ℕ
  bits = bmap_bit_count blocksize

  forward_bitmaps-IsBounded :
      (find : Bits → ℕ → ℕ → ℕ) (left : ℕ) (nodes : Nodes) (bmap offset end_offset : ℕ)
      → IsBounded max_len
          (forward_bitmaps blocksize prepared find left nodes bmap offset end_offset 1 max_len).2
  unfolding forward_bitmaps
  forward_bitmaps-IsBounded find zero nodes bmap offset end_offset =
      search_forward-IsBounded find blocksize (prepared bmap) (nodes bmap) offset end_offset 1
        max_len
  forward_bitmaps-IsBounded find (suc left) nodes bmap offset end_offset =
      in_turn-IsBounded max_len bits nodes bmap
        (search_one_bitmap_forward find blocksize (prepared bmap) (nodes bmap) offset bits 1
          max_len)
        (λ nodes'.
          forward_bitmaps blocksize prepared find left nodes' (bmap + 1) 0 end_offset 1 max_len)
        (search_forward-IsBounded find blocksize (prepared bmap) (nodes bmap) offset bits 1 max_len)
        (λ nodes'. forward_bitmaps-IsBounded find left nodes' (bmap + 1) 0 end_offset)

  backward_bitmaps-IsBounded :
      (left : ℕ) (nodes : Nodes) (bmap offset end_offset : ℕ)
      → IsBounded max_len
          (backward_bitmaps blocksize prepared left nodes bmap offset end_offset 1 max_len).2
  unfolding backward_bitmaps
  backward_bitmaps-IsBounded zero nodes bmap offset end_offset =
      search_backward-IsBounded blocksize (prepared bmap) (nodes bmap) offset end_offset 1 max_len
        some_len
  backward_bitmaps-IsBounded (suc left) nodes bmap offset end_offset =
      in_turn-IsBounded max_len bits nodes bmap
        (search_one_bitmap_backward blocksize (prepared bmap) (nodes bmap) offset 0 1 max_len)
        (λ nodes'.
          backward_bitmaps blocksize prepared left nodes' (bmap - 1) (bits - 1) end_offset 1
            max_len)
        (search_backward-IsBounded blocksize (prepared bmap) (nodes bmap) offset 0 1 max_len
          some_len)
        (λ nodes'. backward_bitmaps-IsBounded left nodes' (bmap - 1) (bits - 1) end_offset)

  second_pass-IsBounded :
      (find : Bits → ℕ → ℕ → ℕ) (hint : Hint) (r : Nodes × ℕ × Len)
      → IsBounded max_len r.2
      → IsBounded max_len (second_pass blocksize prepared find hint max_len r).2
  unfolding second_pass bitmap_alloc_forward
  second_pass-IsBounded find hint (nodes, s, nothing) h =
      if_cases (λ (r : Nodes × ℕ × Len). IsBounded max_len r.2) (not (hint.max_dist == 0) || s == 0)
        (λ _. tt) (λ _. forward_bitmaps-IsBounded find _ nodes _ _ _)
  second_pass-IsBounded find hint (nodes, s, found n) h = h
  second_pass-IsBounded find hint (nodes, s, error e) h = tt

  -- reiser4_alloc_blocks_bitmap, of at least one needed block, never hands out more than the needed
  -- blocks, whatever the bitmaps, the hint and find_next_zero_bit_le are.
  pub alloc_blocks_bitmap-Within :
      (find : Bits → ℕ → ℕ → ℕ) (block_count : ℕ) (nodes : Nodes) (hint : Hint)
      → Within max_len
          (alloc_blocks_bitmap blocksize prepared find block_count nodes hint max_len).0
  unfolding alloc_blocks_bitmap alloc_blocks_forward alloc_blocks_backward bitmap_alloc_forward
      bitmap_alloc_backward
  alloc_blocks_bitmap-Within find block_count nodes hint =
      if_cases (λ (r : Region × Nodes). Within max_len r.0) hint.backward
        (λ _. answer_region-Within max_len _ (backward_bitmaps-IsBounded _ nodes _ _ _))
        (λ _.
          answer_region-Within max_len _
            (second_pass-IsBounded find hint _ (forward_bitmaps-IsBounded find _ nodes _ _ _)))

-- ===== src/Bitmap/Device.antt =====
-- reiser4_alloc_blocks_bitmap: what an allocation does to the blocks of the device.
use reiser.Base.{
  ℕ, ◌+◌, ◌-◌, ◌^◌, ◌≤◌, ◌<◌, ◌≡◌, ap, true, false, ◌||◌, if◌then◌else◌, if_cases, leb, ◌==◌, not,
  arith, add64,
}
use reiser.Space.Grab.{Status}
use reiser.Space.Alloc.{Hint, Region, no_region, region}
use reiser.Bitmap.Bits.{Bits}
use reiser.Bitmap.Scan.{Run}
use reiser.Bitmap.Node.{Len, nothing, found, error, limit}
use reiser.Bitmap.Forward.{FindsZero, in_range, limit-lt}
use reiser.Bitmap.Alloc.{
  Nodes, bmap_bit_count, bitmap_alloc_forward, bitmap_alloc_backward, answer_region, second_pass,
  alloc_blocks_forward, alloc_blocks_backward, alloc_blocks_bitmap,
}
use reiser.Bitmap.AllocLaws.{in_use, AreNodes, DeviceResult, DeviceResult-after}
use reiser.Bitmap.Passes.{bitmap_alloc_forward-DeviceResult, bitmap_alloc_backward-DeviceResult}

-- What a caller sees of an allocation between `low` and `high`.
abbrev pub AllocResult : ℕ → Nodes → (low high needed : ℕ) → Region × Nodes → Type 0
AllocResult bits nodes low high needed (no_region e, nodes') =
    AreNodes nodes' × ((b : ℕ) → in_use bits nodes' b ≡ in_use bits nodes b)
AllocResult bits nodes low high needed (region start n, nodes') =
    AreNodes nodes'
    × ((b : ℕ) → in_use bits nodes' b ≡ (in_range start (start + n) b || in_use bits nodes b))
    × Run false (in_use bits nodes) start (start + n)
    × (low ≤ start)
    × (0 < n)
    × (start + n ≤ high)
    × (n ≤ needed)

-- The blocks that a hint allows.
abbrev pub lowest : Hint → ℕ
lowest hint =
    if hint.max_dist == 0 then 0 else if hint.backward then hint.blk - hint.max_dist else hint.blk

abbrev pub highest : ℕ → Hint → ℕ
highest block_count hint =
    if hint.backward
    then hint.blk + 1
    else if hint.max_dist == 0
    then block_count
    else limit (hint.blk + hint.max_dist) block_count

answer_region-AllocResult :
    (bits : ℕ) (nodes : Nodes) (low high low' high' needed : ℕ) (r : Nodes × ℕ × Len)
    → low ≤ low'
    → high' ≤ high
    → DeviceResult bits nodes low' high' needed r
    → AllocResult bits nodes low high needed (answer_region r)
answer_region-AllocResult bits nodes low high low' high' needed (n, s, nothing) l h (v, t, f) =
    (v, f)
answer_region-AllocResult bits nodes low high low' high' needed (n, s, error e) l h d = d
answer_region-AllocResult bits nodes low high low' high' needed (n, s, found k) l h
      (v, f, run, a, b, c, d) =
    (v, f, run, omega (arith, a), b, omega (arith, c), d)

module _ (blocksize : ℕ) (prepared : ℕ → Status) (some_bits : 0 < bmap_bit_count blocksize)
    (needed : ℕ) (some_needed : 1 ≤ needed) where
  abbrev bits : ℕ
  bits = bmap_bit_count blocksize

  second_pass-DeviceResult :
      {find : Bits → ℕ → ℕ → ℕ}
      → FindsZero find
      → (nodes : Nodes) (hint : Hint) (low high : ℕ) (r : Nodes × ℕ × Len)
      → DeviceResult bits nodes low high needed r
      → DeviceResult bits nodes
          (if hint.max_dist == 0 then 0 else low)
          high
          needed
          (second_pass blocksize prepared find hint needed r)
  unfolding second_pass
  second_pass-DeviceResult {find} z nodes hint low high (nodes', s, nothing) (v, t, f) =
      if_cases (DeviceResult bits nodes (if hint.max_dist == 0 then 0 else low) high needed)
        (not (hint.max_dist == 0) || s == 0) (λ _. (v, t, f))
        (λ again.
          DeviceResult-after bits nodes nodes' (if hint.max_dist == 0 then 0 else low) high 0 s
            needed (bitmap_alloc_forward blocksize prepared find nodes' 0 s 1 needed) f
            (ground arith) t
            (bitmap_alloc_forward-DeviceResult blocksize prepared some_bits needed some_needed z
              nodes' 0 s v (ground arith)))
  second_pass-DeviceResult z nodes hint low high (nodes', s, error e) d = d
  second_pass-DeviceResult z nodes hint low high (nodes', s, found n) (v, f, run, a, b, c, d) =
      (v, f, run, ground (arith, a), b, c, d)

  forward-AllocResult :
      {find : Bits → ℕ → ℕ → ℕ}
      → FindsZero find
      → (block_count : ℕ) (nodes : Nodes) (hint : Hint) → AreNodes nodes
      → hint.blk < block_count
      → hint.blk + hint.max_dist < 2 ^ 64
      → let search_end =
          if hint.max_dist == 0
          then block_count
          else limit (hint.blk + hint.max_dist) block_count in
        AllocResult bits nodes
          (if hint.max_dist == 0 then 0 else hint.blk)
          search_end
          needed
          (alloc_blocks_forward blocksize prepared find block_count nodes hint needed)
  unfolding alloc_blocks_forward
  forward-AllocResult {find} z block_count nodes hint v h g =
      let search_end =
        if hint.max_dist == 0
        then block_count
        else limit (add64 hint.blk hint.max_dist) block_count in
      let whole : add64 hint.blk hint.max_dist ≡ hint.blk + hint.max_dist = omega arith in
      let inside : hint.blk < search_end =
        if_cases (λ e. hint.blk < e) (hint.max_dist == 0) (λ _. h)
          (λ some_dist.
            limit-lt (add64 hint.blk hint.max_dist) block_count hint.blk (ground (arith, whole))
              h) in
      answer_region-AllocResult bits nodes (if hint.max_dist == 0 then 0 else hint.blk)
        (if hint.max_dist == 0 then block_count else limit (hint.blk + hint.max_dist) block_count)
        (if hint.max_dist == 0 then 0 else hint.blk) search_end needed
        (second_pass blocksize prepared find hint needed
          (bitmap_alloc_forward blocksize prepared find nodes hint.blk search_end 1 needed))
        (omega arith) (ground (arith, ap (λ k. limit k block_count) whole))
        (second_pass-DeviceResult z nodes hint hint.blk search_end
          (bitmap_alloc_forward blocksize prepared find nodes hint.blk search_end 1 needed)
          (bitmap_alloc_forward-DeviceResult blocksize prepared some_bits needed some_needed z nodes
            hint.blk search_end v inside))

  backward-AllocResult :
      (nodes : Nodes) (hint : Hint)
      → AreNodes nodes
      → AllocResult bits nodes
          (if hint.max_dist == 0 then 0 else hint.blk - hint.max_dist)
          (hint.blk + 1)
          needed
          (alloc_blocks_backward blocksize prepared nodes hint needed)
  unfolding alloc_blocks_backward
  backward-AllocResult nodes hint v =
      let search_end =
        if hint.max_dist == 0
        then 0
        else if leb hint.blk hint.max_dist
        then 0
        else hint.blk - hint.max_dist in
      answer_region-AllocResult bits nodes
        (if hint.max_dist == 0 then 0 else hint.blk - hint.max_dist) (hint.blk + 1) search_end
        (hint.blk + 1) needed
        (bitmap_alloc_backward blocksize prepared nodes hint.blk search_end 1 needed) (ground arith)
        (omega arith)
        (bitmap_alloc_backward-DeviceResult blocksize prepared some_bits needed some_needed nodes
          hint.blk search_end v (ground arith))

  -- reiser4_alloc_blocks_bitmap, where the kernel's search finds the next clear bit, for a hint inside the device and at least one needed block, on nodes
  -- the bits of which below the first zero bit are set (a node that is not loaded has 0 there): an
  -- error changes no block; otherwise the region that is returned has between one and the needed
  -- number of blocks, all of them were free, they are now in use, no other block changed, and they
  -- lie where the hint allows: from its block on up to its distance, or, backwards, up to its block
  -- and not below its distance from it; without a distance, anywhere below it backwards and anywhere
  -- on the device forwards.
  pub alloc_blocks_bitmap_lem :
      {find : Bits → ℕ → ℕ → ℕ}
      → FindsZero find
      → (block_count : ℕ) (nodes : Nodes) (hint : Hint) → AreNodes nodes
      → hint.blk < block_count
      → hint.blk + hint.max_dist < 2 ^ 64
      → AllocResult bits nodes
          (lowest hint)
          (highest block_count hint)
          needed
          (alloc_blocks_bitmap blocksize prepared find block_count nodes hint needed)
  unfolding alloc_blocks_bitmap
  alloc_blocks_bitmap_lem {find} z block_count nodes hint v h g =
      elim hint.backward
        as (λ b.
          AllocResult bits nodes
            (if hint.max_dist == 0 then 0 else if b then hint.blk - hint.max_dist else hint.blk)
            (if b
              then hint.blk + 1
              else if hint.max_dist == 0
              then block_count
              else limit (hint.blk + hint.max_dist) block_count)
            needed
            (if b
              then alloc_blocks_backward blocksize prepared nodes hint needed
              else alloc_blocks_forward blocksize prepared find block_count nodes hint needed)) [
                | true ↦ backward-AllocResult nodes hint v
                | false ↦ forward-AllocResult z block_count nodes hint v h g
              ]

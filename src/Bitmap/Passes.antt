-- ===== src/Bitmap/Passes.antt =====
-- One pass over the bitmap blocks, in either direction.
use reiser.Base.{ℕ, zero, suc, ◌+◌, ◌-◌, ◌*◌, ◌/◌, ◌%◌, ◌≤◌, ◌<◌, ◌≡◌, refl, ap, arith}
use reiser.Space.Grab.{Status}
use reiser.Bitmap.Bits.{Bits}
use reiser.Bitmap.Node.{Bnode, Len, nothing, found, error, search_one_bitmap_forward}
use reiser.Bitmap.Backward.{search_one_bitmap_backward}
use reiser.Bitmap.Forward.{FindsZero}
use reiser.Bitmap.NodeSearch.{NodeResult, forward-NodeResult, backward-NodeResult}
use reiser.Bitmap.Alloc.{
  Nodes, put_node, bmap_bit_count, parse_blocknr, forward_bitmaps, backward_bitmaps,
  bitmap_alloc_forward, bitmap_alloc_backward,
}
use reiser.Bitmap.AllocLaws.{AreNodes, DeviceResult, NodeResult-DeviceResult, DeviceResult-after}
use reiser.Bitmap.Places.{place_of, div-le}

module _ (bits : ℕ) (some_bits : 0 < bits) (max_len : ℕ) (nodes : Nodes) (bmap : ℕ)
    (v : AreNodes nodes) where
  -- A search of bitmap `bmap`, and the other bitmaps if it finds nothing.
  search_rest :
      (low high low' high' : ℕ) (r : Bnode × ℕ × Len) (rest : Nodes → Nodes × ℕ × Len)
      → high ≤ bits
      → low' ≤ bmap * bits + low
      → bmap * bits + high ≤ high'
      → NodeResult (nodes bmap) low high max_len r
      → ((nodes' : Nodes)
          → AreNodes nodes'
          → DeviceResult bits nodes' low' high' max_len (rest nodes'))
      → let nodes' = put_node nodes bmap r.0 in
        DeviceResult bits nodes low' high' max_len (elim r.2 [
          | nothing ↦ rest nodes'
          | found n ↦ (nodes', bmap * bits + r.1, found n)
          | error e ↦ (nodes', bmap * bits + r.1, error e)
        ])
  search_rest low high low' high' (bnode, o, nothing) rest h l t x later =
      let d =
        NodeResult-DeviceResult bits some_bits nodes bmap bnode low high max_len o nothing v h x in
      let nodes' = put_node nodes bmap bnode in
      DeviceResult-after bits nodes nodes' low' high' low' high' max_len (rest nodes') d.2
        (omega arith) (omega arith) (later nodes' d.0)
  search_rest low high low' high' (bnode, o, found n) rest h l t x later =
      DeviceResult-after bits nodes nodes low' high' (bmap * bits + low) (bmap * bits + high)
        max_len (put_node nodes bmap bnode, bmap * bits + o, found n) (λ b. refl) l t
        (NodeResult-DeviceResult bits some_bits nodes bmap bnode low high max_len o (found n) v h x)
  search_rest low high low' high' (bnode, o, error e) rest h l t x later =
      DeviceResult-after bits nodes nodes low' high' (bmap * bits + low) (bmap * bits + high)
        max_len (put_node nodes bmap bnode, bmap * bits + o, error e) (λ b. refl) l t
        (NodeResult-DeviceResult bits some_bits nodes bmap bnode low high max_len o (error e) v h x)

module _ (blocksize : ℕ) (prepared : ℕ → Status) (some_bits : 0 < bmap_bit_count blocksize)
    (max_len : ℕ) (some_len : 1 ≤ max_len) where
  abbrev bits : ℕ
  bits = bmap_bit_count blocksize

  forward_bitmaps-DeviceResult :
      {find : Bits → ℕ → ℕ → ℕ}
      → FindsZero find
      → (left : ℕ) (nodes : Nodes) (bmap offset end_offset : ℕ) → AreNodes nodes
      → offset ≤ bits
      → end_offset ≤ bits
      → (left ≡ 0 → offset ≤ end_offset)
      → DeviceResult bits nodes
          (bmap * bits + offset)
          ((bmap + left) * bits + end_offset)
          max_len
          (forward_bitmaps blocksize prepared find left nodes bmap offset end_offset 1 max_len)
  unfolding forward_bitmaps
  forward_bitmaps-DeviceResult {find} z zero nodes bmap offset end_offset v h g le =
      let (bnode, o, len) =
        search_one_bitmap_forward find blocksize (prepared bmap) (nodes bmap) offset end_offset 1
          max_len in
      DeviceResult-after bits nodes nodes (bmap * bits + offset) ((bmap + 0) * bits + end_offset)
        (bmap * bits + offset) (bmap * bits + end_offset) max_len
        (put_node nodes bmap bnode, bmap * bits + o, len) (λ b. refl) (omega arith) (omega arith)
        (NodeResult-DeviceResult bits some_bits nodes bmap bnode offset end_offset max_len o len v g
          (forward-NodeResult z blocksize (prepared bmap) (nodes bmap) offset end_offset 1 max_len
            (omega arith) some_len (le refl) (v bmap)))
  forward_bitmaps-DeviceResult {find} z (suc left) nodes bmap offset end_offset v h g le =
      search_rest bits some_bits max_len nodes bmap v offset bits (bmap * bits + offset)
        ((bmap + suc left) * bits + end_offset)
        (search_one_bitmap_forward find blocksize (prepared bmap) (nodes bmap) offset bits 1
          max_len)
        (λ nodes'.
          forward_bitmaps blocksize prepared find left nodes' (bmap + 1) 0 end_offset 1 max_len)
        (omega arith) (omega arith) (grind arith)
        (forward-NodeResult z blocksize (prepared bmap) (nodes bmap) offset bits 1 max_len
          (omega arith) some_len h (v bmap))
        (λ nodes' w.
          DeviceResult-after bits nodes' nodes' (bmap * bits + offset)
            ((bmap + suc left) * bits + end_offset) ((bmap + 1) * bits + 0)
            ((bmap + 1 + left) * bits + end_offset) max_len
            (forward_bitmaps blocksize prepared find left nodes' (bmap + 1) 0 end_offset 1 max_len)
            (λ b. refl) (grind arith) (grind arith)
            (forward_bitmaps-DeviceResult z left nodes' (bmap + 1) 0 end_offset w (omega arith) g
              (λ e. omega arith)))

  backward_bitmaps-DeviceResult :
      (left : ℕ) (nodes : Nodes) (bmap end_bmap offset end_offset : ℕ)
      → AreNodes nodes
      → bmap ≡ end_bmap + left
      → offset < bits
      → end_offset ≤ bits
      → DeviceResult bits nodes
          (end_bmap * bits + end_offset)
          (bmap * bits + (offset + 1))
          max_len
          (backward_bitmaps blocksize prepared left nodes bmap offset end_offset 1 max_len)
  unfolding backward_bitmaps
  backward_bitmaps-DeviceResult zero nodes bmap end_bmap offset end_offset v e h g =
      let (bnode, o, len) =
        search_one_bitmap_backward blocksize (prepared bmap) (nodes bmap) offset end_offset 1
          max_len in
      let same : bmap ≡ end_bmap = omega arith in
      DeviceResult-after bits nodes nodes (end_bmap * bits + end_offset)
        (bmap * bits + (offset + 1)) (bmap * bits + end_offset) (bmap * bits + (offset + 1)) max_len
        (put_node nodes bmap bnode, bmap * bits + o, len) (λ b. refl) (grind arith) (omega arith)
        (NodeResult-DeviceResult bits some_bits nodes bmap bnode end_offset (offset + 1) max_len o
          len v (omega arith)
          (backward-NodeResult blocksize (prepared bmap) (nodes bmap) offset end_offset (offset + 1)
            1 max_len (omega arith) some_len (omega arith) (v bmap)))
  backward_bitmaps-DeviceResult (suc left) nodes bmap end_bmap offset end_offset v e h g =
      search_rest bits some_bits max_len nodes bmap v 0 (offset + 1) (end_bmap * bits + end_offset)
        (bmap * bits + (offset + 1))
        (search_one_bitmap_backward blocksize (prepared bmap) (nodes bmap) offset 0 1 max_len)
        (λ nodes'.
          backward_bitmaps blocksize prepared left nodes' (bmap - 1) (bits - 1) end_offset 1
            max_len)
        (omega arith) (grind arith) (omega arith)
        (backward-NodeResult blocksize (prepared bmap) (nodes bmap) offset 0 (offset + 1) 1 max_len
          (omega arith) some_len (omega arith) (v bmap))
        (λ nodes' w.
          DeviceResult-after bits nodes' nodes' (end_bmap * bits + end_offset)
            (bmap * bits + (offset + 1)) (end_bmap * bits + end_offset)
            ((bmap - 1) * bits + (bits - 1 + 1)) max_len
            (backward_bitmaps blocksize prepared left nodes' (bmap - 1) (bits - 1) end_offset 1
              max_len)
            (λ b. refl) (omega arith) (grind arith)
            (backward_bitmaps-DeviceResult left nodes' (bmap - 1) end_bmap (bits - 1) end_offset w
              (omega arith) (omega arith) g))

  pub bitmap_alloc_forward-DeviceResult :
      {find : Bits → ℕ → ℕ → ℕ}
      → FindsZero find
      → (nodes : Nodes) (start end : ℕ) → AreNodes nodes
      → start < end
      → DeviceResult bits nodes start end max_len
          (bitmap_alloc_forward blocksize prepared find nodes start end 1 max_len)
  unfolding bitmap_alloc_forward parse_blocknr
  bitmap_alloc_forward-DeviceResult {find} z nodes start end v h =
      let p = place_of start bits some_bits in
      let q = place_of (end - 1) bits some_bits in
      let left = (end - 1) / bits - start / bits in
      let le = div-le start (end - 1) bits some_bits (omega arith) in
      let whole : start / bits + left ≡ (end - 1) / bits = omega arith in
      let k = ap (λ m. m * bits) whole in
      let order : (end - 1) / bits ≡ start / bits → start % bits ≤ (end - 1) % bits + 1 =
        λ same. let m = ap (λ m. m * bits) same in omega arith in
      DeviceResult-after bits nodes nodes start end (start / bits * bits + start % bits)
        ((start / bits + left) * bits + ((end - 1) % bits + 1)) max_len
        (forward_bitmaps blocksize prepared find left nodes (start / bits) (start % bits)
          ((end - 1) % bits + 1) 1 max_len)
        (λ b. refl) (omega arith) (omega arith)
        (forward_bitmaps-DeviceResult z left nodes (start / bits) (start % bits)
          ((end - 1) % bits + 1) v (omega arith) (omega arith) (λ e. order (omega arith)))

  pub bitmap_alloc_backward-DeviceResult :
      (nodes : Nodes) (start end : ℕ)
      → AreNodes nodes
      → end ≤ start
      → DeviceResult bits nodes end
          (start + 1)
          max_len
          (bitmap_alloc_backward blocksize prepared nodes start end 1 max_len)
  unfolding bitmap_alloc_backward parse_blocknr
  bitmap_alloc_backward-DeviceResult nodes start end v h =
      let p = place_of start bits some_bits in
      let q = place_of end bits some_bits in
      let left = start / bits - end / bits in
      let le = div-le end start bits some_bits h in
      DeviceResult-after bits nodes nodes end (start + 1) (end / bits * bits + end % bits)
        (start / bits * bits + (start % bits + 1)) max_len
        (backward_bitmaps blocksize prepared left nodes (start / bits) (start % bits) (end % bits) 1
          max_len)
        (λ b. refl) (omega arith) (omega arith)
        (backward_bitmaps-DeviceResult left nodes (start / bits) (end / bits) (start % bits)
          (end % bits) v (omega arith) (omega arith) (omega arith))

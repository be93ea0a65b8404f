-- ===== src/Bitmap/Dealloc.antt =====
-- reiser4_dealloc_blocks_bitmap: what a deallocation does to the blocks of the device.
use reiser.Base.{
  ℕ, ◌+◌, ◌-◌, ◌/◌, ◌%◌, ◌≤◌, ◌<◌, ◌≡◌, refl, sym, ap, ◌∙◌, Bool, true, false, ◌&&◌, if◌then◌else◌,
  if_cases, ltb, not, arith,
}
use reiser.Space.Grab.{Status, success, failed}
use reiser.Bitmap.Masks.{clear_bits}
use reiser.Bitmap.Ranges.{clear_bits_lem}
use reiser.Bitmap.Node.{
  Bnode, bnode_working_data, with_data, adjust_first_zero_bit, load_and_lock_bnode, loaded_bnode,
  check_struct_bnode,
}
use reiser.Bitmap.Forward.{IsBnode, in_range}
use reiser.Bitmap.Search.{load_from}
use reiser.Bitmap.NodeSearch.{
  IsNode, node_bits, loaded-IsNode, loaded-bits, IsNode-loaded, loaded_bnode-data, zero-IsBnode,
  IsNode-zero,
}
use reiser.Bitmap.Alloc.{Nodes, bmap_bit_count, parse_blocknr, free_bits, dealloc_blocks_bitmap}
use reiser.Bitmap.AllocLaws.{in_use, AreNodes, put_node-AreNodes, in_use-changed}
use reiser.Bitmap.Places.{place_of}

-- `base` is a loaded node with the blocks of `bnode`.
pub record IsLoaded (bnode base : Bnode) : Type 0 where
  pub is_loaded : base.loaded ≡ true
  pub is_bnode : IsBnode base
  pub same : (j : ℕ) → bnode_working_data base j ≡ node_bits bnode j

pub load_from-IsLoaded :
    (bnode : Bnode) (is_loaded : Bool) (prepared checked : Status)
    → bnode.loaded ≡ is_loaded
    → IsNode bnode
    → (load_from bnode is_loaded prepared checked).0 ≡ success
    → IsLoaded bnode (load_from bnode is_loaded prepared checked).1
unfolding loaded_bnode
load_from-IsLoaded bnode true prepared checked e v h = record {
  is_loaded = e;
  is_bnode = IsNode-loaded bnode e v;
  same = λ j. sym (loaded-bits bnode j e);
}
load_from-IsLoaded bnode false (failed c) checked e v h = absurd (cc h)
load_from-IsLoaded bnode false success (failed c) e v h = absurd (cc h)
load_from-IsLoaded bnode false success success e v h = record {
  is_loaded = refl;
  is_bnode = zero-IsBnode (loaded_bnode bnode) (IsNode-zero bnode e v);
  same = λ j. loaded_bnode-data bnode j e;
}

free_bits-data :
    (base : Bnode) (start end j : ℕ)
    → start < end
    → bnode_working_data (free_bits base start end) j
      ≡ (not (in_range start end j) && bnode_working_data base j)
unfolding free_bits with_data
free_bits-data base start end j h =
    let d = bnode_working_data base in
    ap (λ k. if ltb (j + 32) 32 then base.wpage (j + 32) else clear_bits d start end k)
      {x = j + 32 - 32} {y = j} (omega arith)
    ∙ ground (arith, clear_bits_lem d start end h j)

freed-IsNode :
    (base bnode bnode' : Bnode) (offset end : ℕ)
    → IsLoaded bnode base
    → bnode'.loaded ≡ true
    → ((j : ℕ)
        → bnode_working_data bnode' j ≡ (not (in_range offset end j) && bnode_working_data base j))
    → bnode'.first_zero_bit ≤ offset
    → bnode'.first_zero_bit ≤ base.first_zero_bit
    → IsNode bnode'
      × ((j : ℕ) → node_bits bnode' j ≡ (not (in_range offset end j) && node_bits bnode j))
freed-IsNode base bnode bnode' offset end l e data' h g = (
  loaded-IsNode bnode' e (λ j k m. ground (arith, data' j, l.is_bnode j k (omega arith))),
  λ j. loaded-bits bnode' j e ∙ data' j ∙ ap (λ x. not (in_range offset end j) && x) (l.same j),
)

-- Freeing bits of a loaded node and adjusting its first zero bit.
freed-adjusted :
    (base bnode : Bnode) (offset end : ℕ)
    → offset < end
    → IsLoaded bnode base
    → let bnode' = adjust_first_zero_bit (free_bits base offset end) offset in
      IsNode bnode'
      × ((j : ℕ) → node_bits bnode' j ≡ (not (in_range offset end j) && node_bits bnode j))
unfolding adjust_first_zero_bit free_bits
freed-adjusted base bnode offset end h l =
    let freed = free_bits base offset end in
    let data' = λ (j : ℕ). free_bits-data base offset end j h in
    let P = λ (k : Bnode).
      IsNode k × ((j : ℕ) → node_bits k j ≡ (not (in_range offset end j) && node_bits bnode j)) in
    if_cases P (ltb offset freed.first_zero_bit)
      (λ before.
        freed-IsNode base bnode (record freed { first_zero_bit = offset }) offset end l l.is_loaded
          data' (omega arith) (ground arith))
      (λ behind.
        freed-IsNode base bnode freed offset end l l.is_loaded data' (ground arith) (omega arith))

-- The blocks from `start` on, `len` of them, become free, and no other block changes.
abbrev pub DeallocResult : ℕ → Nodes → (start len : ℕ) → Nodes → Type 0
DeallocResult bits nodes start len nodes' =
    AreNodes nodes'
    × ((b : ℕ)
        → in_use bits nodes' b ≡ (not (in_range start (start + len) b) && in_use bits nodes b))

module _ (blocksize : ℕ) (prepared : ℕ → Status) (some_bits : 0 < bmap_bit_count blocksize) where
  abbrev bits : ℕ
  bits = bmap_bit_count blocksize

  -- reiser4_dealloc_blocks_bitmap, of one block at least, all of them in one bitmap whose block can be
  -- loaded and is sound, frees exactly those blocks, and leaves the nodes well formed.
  pub dealloc_blocks_bitmap_lem :
      (nodes : Nodes) (start len : ℕ)
      → AreNodes nodes
      → 0 < len
      → start % bits + len ≤ bits
      → (load_and_lock_bnode blocksize (prepared (start / bits)) (nodes (start / bits))).0 ≡ success
      → DeallocResult bits nodes start len
          (dealloc_blocks_bitmap blocksize prepared nodes start len)
  unfolding dealloc_blocks_bitmap parse_blocknr load_and_lock_bnode
  dealloc_blocks_bitmap_lem nodes start len v h g ready =
      let i = start / bits in
      let o = start % bits in
      let checked = check_struct_bnode (nodes i) blocksize in
      let l = load_from-IsLoaded (nodes i) (nodes i).loaded (prepared i) checked refl (v i) ready in
      let base = (load_from (nodes i) (nodes i).loaded (prepared i) checked).1 in
      let bnode = adjust_first_zero_bit (free_bits base o (o + len)) o in
      let (w, freed) = freed-adjusted base (nodes i) o (o + len) (omega arith) l in
      let place = sym (place_of start bits some_bits) in
      (
        put_node-AreNodes nodes i bnode v w,
        λ b.
            in_use-changed bits some_bits nodes i bnode (λ x y. not x && y) o len b (λ x. refl) g
              freed
            ∙ ap (λ s. not (in_range s (s + len) b) && in_use bits nodes b) place,
      )

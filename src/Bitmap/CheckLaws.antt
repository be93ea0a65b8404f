-- ===== src/Bitmap/CheckLaws.antt =====
-- The check of blocks answers what it is asked.
use mathlib.Core.Path.{subst}
use reiser.Base.{
  ℕ, zero, suc, ◌+◌, ◌-◌, ◌*◌, ◌/◌, ◌%◌, ◌≤◌, ◌<◌, ◌≡◌, refl, sym, ap, ◌∙◌, Bool, true, false,
  Option, if◌then◌else◌, if_cases, ◌==◌, arith,
}
use reiser.Space.Grab.{Status, success}
use reiser.Bitmap.Bits.{Bits}
use reiser.Bitmap.Node.{Bnode, bnode_working_data, load_and_lock_bnode, check_struct_bnode}
use reiser.Bitmap.Forward.{FindsZero}
use reiser.Bitmap.NodeSearch.{loaded-IsNode, loaded-bits}
use reiser.Bitmap.Search.{load_from}
use reiser.Bitmap.Dealloc.{load_from-IsLoaded}
use reiser.Bitmap.Places.{place_of, div-le}
use reiser.Bitmap.Alloc.{Nodes, bmap_bit_count, parse_blocknr}
use reiser.Bitmap.AllocLaws.{in_use, AreNodes, put_node-AreNodes, in_use-same}
use reiser.Bitmap.Check.{
  last_block, check_loaded, check_blocks_one_bitmap, check_bitmaps, check_blocks_bitmap,
}
use reiser.Bitmap.Says.{Says, check_loaded-Says, Says-same, Says-join, Says-place}

subst2 : (A : ℕ → ℕ → Type 0) {x y : ℕ} → x ≡ y → {x' y' : ℕ} → x' ≡ y' → A x x' → A y y'
subst2 A {x} {y} e {x'} {y'} e' a = subst (λ k. A k y') e (subst (A x) e' a)

-- Every bitmap block is loaded or can be.
abbrev pub AreReady : ℕ → (ℕ → Status) → Nodes → Type 0
AreReady blocksize prepared nodes =
    (i : ℕ) → (load_and_lock_bnode blocksize (prepared i) (nodes i)).0 ≡ success

-- The answer is right for the blocks, none of which changed.
abbrev pub CheckResult : Bool → ℕ → Nodes → (low high : ℕ) → Bool × Nodes → Type 0
CheckResult desired bits nodes low high (test, nodes') =
    AreNodes nodes'
    × ((b : ℕ) → in_use bits nodes' b ≡ in_use bits nodes b)
    × Says desired (in_use bits nodes) low high test

module _ (blocksize : ℕ) (prepared : ℕ → Status) (some_bits : 0 < bmap_bit_count blocksize)
    {find : Bits → ℕ → ℕ → ℕ} (z : FindsZero find) (desired : Bool) where
  abbrev bits : ℕ
  bits = bmap_bit_count blocksize

  check_one-CheckResult :
      (nodes : Nodes) (bmap low high : ℕ)
      → AreNodes nodes
      → AreReady blocksize prepared nodes
      → low < high
      → high ≤ bits
      → CheckResult desired bits nodes
          (bmap * bits + low)
          (bmap * bits + high)
          (check_blocks_one_bitmap blocksize prepared find desired nodes bmap low high)
        × AreReady blocksize prepared
            (check_blocks_one_bitmap blocksize prepared find desired nodes bmap low high).1
  unfolding check_blocks_one_bitmap load_and_lock_bnode
  check_one-CheckResult nodes bmap low high v ready h g =
      let checked = check_struct_bnode (nodes bmap) blocksize in
      let l =
        load_from-IsLoaded (nodes bmap) (nodes bmap).loaded (prepared bmap) checked refl (v bmap)
          (ready bmap) in
      let base = (load_from (nodes bmap) (nodes bmap).loaded (prepared bmap) checked).1 in
      (
        (
          put_node-AreNodes nodes bmap base v (loaded-IsNode base l.is_loaded l.is_bnode),
          in_use-same bits some_bits nodes bmap base
              (λ j. loaded-bits base j l.is_loaded ∙ l.same j),
          Says-place bits some_bits nodes bmap desired (bnode_working_data base) low high
              (check_loaded find desired base low high) g l.same
              (check_loaded-Says z desired base low high h),
        ),
        λ k.
            if_cases (λ (n : Bnode). (load_and_lock_bnode blocksize (prepared k) n).0 ≡ success)
              (k == bmap)
              (λ _.
                ap (λ b. (load_from base b (prepared k) (check_struct_bnode base blocksize)).0)
                  l.is_loaded)
              (λ _. ready k),
      )

  -- One bitmap, and the others if its blocks have the value.
  check_rest :
      (nodes : Nodes) (low mid high : ℕ) (r : Bool × Nodes) (rest : Nodes → Bool × Nodes)
      → low ≤ mid
      → mid ≤ high
      → CheckResult desired bits nodes low mid r
      → (AreNodes r.1 → CheckResult desired bits r.1 mid high (rest r.1))
      → CheckResult desired bits nodes low high (if r.0 then rest r.1 else (false, r.1))
  check_rest nodes low mid high (true, nodes') rest l h (v, same, first) later =
      let (w, same', says) = later v in
      (
        w,
        λ b. same' b ∙ same b,
        Says-join desired (in_use bits nodes) low mid high (rest nodes').0 l first (
            Says-same desired (in_use bits nodes') (in_use bits nodes) mid high (rest nodes').0 same
              says),
      )
  check_rest nodes low mid high (false, nodes') rest l h (v, same, fails) later =
      (v, same, λ all. fails (λ j k m. all j k (omega arith)))

  check_bitmaps-CheckResult :
      (left : ℕ) (nodes : Nodes) (bmap offset end_offset : ℕ)
      → AreNodes nodes
      → AreReady blocksize prepared nodes
      → offset < bits
      → end_offset ≤ bits
      → 0 < end_offset
      → (left ≡ 0 → offset < end_offset)
      → CheckResult desired bits nodes
          (bmap * bits + offset)
          ((bmap + left) * bits + end_offset)
          (check_bitmaps blocksize prepared find desired left nodes bmap offset end_offset)
  unfolding check_bitmaps
  check_bitmaps-CheckResult zero nodes bmap offset end_offset v ready h g s le =
      subst
        (λ k.
          CheckResult desired bits nodes (bmap * bits + offset) (k * bits + end_offset)
            (check_blocks_one_bitmap blocksize prepared find desired nodes bmap offset end_offset))
        {x = bmap} {y = bmap + 0} (omega arith)
        (check_one-CheckResult nodes bmap offset end_offset v ready (le refl) g).0
  check_bitmaps-CheckResult (suc left) nodes bmap offset end_offset v ready h g s le =
      let first = check_one-CheckResult nodes bmap offset bits v ready h (omega arith) in
      let r = check_blocks_one_bitmap blocksize prepared find desired nodes bmap offset bits in
      check_rest nodes (bmap * bits + offset) (bmap * bits + bits)
        ((bmap + suc left) * bits + end_offset) r
        (λ nodes'.
          check_bitmaps blocksize prepared find desired left nodes' (bmap + 1) 0 end_offset)
        (omega arith) (grind arith) first.0
        (λ w.
          subst2
            (λ lo hi.
              CheckResult desired bits r.1 lo hi
                (check_bitmaps blocksize prepared find desired left r.1 (bmap + 1) 0 end_offset))
            {x = (bmap + 1) * bits + 0} {y = bmap * bits + bits} (grind arith)
            {x' = (bmap + 1 + left) * bits + end_offset}
            {y' = (bmap + suc left) * bits + end_offset} (grind arith)
            (check_bitmaps-CheckResult left r.1 (bmap + 1) 0 end_offset w first.1 some_bits g s
              (λ e. s)))

  -- The blocks from `start` up to `end`, which has offset `r` in bitmap `q`.
  check_up_to :
      (nodes : Nodes) (start end q r : ℕ)
      → AreNodes nodes
      → AreReady blocksize prepared nodes
      → end ≡ q * bits + r
      → r < bits
      → start / bits ≤ q
      → (q ≡ start / bits → start % bits ≤ r)
      → CheckResult desired bits nodes start (end + 1) (
          check_bitmaps blocksize prepared find desired
            (q - start / bits)
            nodes
            (start / bits)
            (start % bits)
            (r + 1))
  check_up_to nodes start end q r v ready e small le order =
      let p = place_of start bits some_bits in
      let left = q - start / bits in
      let whole : start / bits + left ≡ q = omega arith in
      let k = ap (λ m. m * bits) whole in
      subst2
        (λ lo hi. CheckResult desired bits nodes lo hi (
          check_bitmaps blocksize prepared find desired left nodes (start / bits) (start % bits)
            (r + 1)))
        {x = start / bits * bits + start % bits} {y = start} (sym p)
        {x' = (start / bits + left) * bits + (r + 1)} {y' = end + 1} (omega arith)
        (check_bitmaps-CheckResult left nodes (start / bits) (start % bits) (r + 1) v ready
          (omega arith) (omega arith) (omega arith)
          (λ same. let o = order (omega arith) in omega arith))

  -- reiser4_check_blocks_bitmap, where the kernel's search finds the next clear bit, of one block at least (a null length stands for one block), on well
  -- formed nodes each of which is loaded or can be, answers 1 exactly when every block of the range is
  -- in use, or, asked for free blocks, exactly when every one is free; and no block changes.
  pub check_blocks_bitmap_lem :
      (nodes : Nodes) (start : ℕ) (len : Option ℕ)
      → AreNodes nodes
      → AreReady blocksize prepared nodes
      → start ≤ last_block start len
      → CheckResult desired bits nodes start
          (last_block start len + 1)
          (check_blocks_bitmap blocksize prepared find desired nodes start len)
  unfolding check_blocks_bitmap parse_blocknr
  check_blocks_bitmap_lem nodes start len v ready h =
      let end = last_block start len in
      let p = place_of start bits some_bits in
      let q = place_of end bits some_bits in
      if_cases
        (λ (o : ℕ × ℕ). CheckResult desired bits nodes start (end + 1) (
          check_bitmaps blocksize prepared find desired (o.0 - start / bits) nodes (start / bits)
            (start % bits) (o.1 + 1)))
        (end == start)
        (λ one.
          let same : end ≡ start = ground arith in
          check_up_to nodes start end (start / bits) (start % bits) v ready (same ∙ p) (omega arith)
            (omega arith) (λ _. omega arith))
        (λ _.
          check_up_to nodes start end (end / bits) (end % bits) v ready q (omega arith)
            (div-le start end bits some_bits h)
            (λ same. let m = ap (λ k. k * bits) same in omega arith))

-- ===== src/Tests/Bitmap.antt =====
-- bitmap.c on small bitmaps.
use reiser.Base.{
  ℕ, some, refl, ◌/◌, zero, suc, ◌+◌, ◌-◌, ◌≤◌, ◌<◌, ◌≡◌, true, false, ◌||◌, [], ◌∷◌, if◌then◌else◌,
  if_cases, ltb, ◌==◌, ◌^◌, ◌*◌, ◌%◌, arith,
}
use reiser.Space.Grab.{Status, success}
use reiser.Bitmap.Bits.{Bits, from_bit, zero_in_word}
use reiser.Bitmap.Scan.{Run, Run-first}
use reiser.Bitmap.Checksum.{adler32, adler32_recalc}
use reiser.Bitmap.Adler.{sums, adler32_lem, adler32_recalc_lem}
use reiser.Bitmap.Node.{
  Bnode, nothing, search_loaded_forward, search_one_bitmap_forward, check_struct_bnode,
  load_and_lock_bnode,
}
use reiser.Bitmap.Forward.{FindsZero}
use reiser.Bitmap.Backward.{backward_loop}
use reiser.Bitmap.BackwardLaws.{BackwardResult, backward_loop_lem}
use reiser.Bitmap.Alloc.{Nodes, bmap_bit_count, alloc_blocks_bitmap, dealloc_blocks_bitmap}
use reiser.Bitmap.Check.{check_blocks_bitmap}
use reiser.Bitmap.CheckLaws.{CheckResult, check_blocks_bitmap_lem}
use reiser.Bitmap.AllocLaws.{AreNodes}
use reiser.Bitmap.Device.{AllocResult, alloc_blocks_bitmap_lem}
use reiser.Bitmap.Dealloc.{DeallocResult, dealloc_blocks_bitmap_lem}
use reiser.Space.State.{unallocated}
use reiser.Space.Alloc.{Hint, region}
use reiser.Bitmap.Search.{SearchFrom, search_one_bitmap_forward_lem, search_forward_misses}

-- A bit by bit search, in place of the kernel's.
abbrev find_zero : Bits → ℕ → ℕ → ℕ
find_zero bits size offset = zero_in_word (size - offset) bits offset

record ZeroFrom (bits : Bits) (size offset r : ℕ) : Type 0 where
  passed : Run true bits offset r
  low : offset ≤ r
  high : r ≤ size
  hit : r < size → bits r ≡ false

zero_in_word-ZeroFrom :
    (left : ℕ) (bits : Bits) (size i : ℕ)
    → i + left ≡ size
    → ZeroFrom bits size i (zero_in_word left bits i)
unfolding zero_in_word
zero_in_word-ZeroFrom zero bits size i e = record {
  passed = λ j l h. absurd (omega arith);
  low = omega arith;
  high = omega arith;
  hit = λ l. absurd (omega arith);
}
zero_in_word-ZeroFrom (suc left) bits size i e =
    if_cases (ZeroFrom bits size i) (bits i)
      (λ set.
        let z = zero_in_word-ZeroFrom left bits size (i + 1) (omega arith) in
        record {
          passed = Run-first true bits i (zero_in_word left bits (i + 1)) set z.passed;
          low = omega (arith, z.low);
          high = z.high;
          hit = z.hit;
        })
      (λ clear. record {
        passed = λ j l h. absurd (omega arith);
        low = omega arith;
        high = omega arith;
        hit = λ l. clear;
      })

find_zero-FindsZero : FindsZero find_zero
find_zero-FindsZero = record {
  passes_set = λ bits size offset h.
      (zero_in_word-ZeroFrom (size - offset) bits size offset (omega arith)).passed;
  goes_on = λ bits size offset h.
      (zero_in_word-ZeroFrom (size - offset) bits size offset (omega arith)).low;
  stays_in = λ bits size offset h.
      (zero_in_word-ZeroFrom (size - offset) bits size offset (omega arith)).high;
  hits = λ bits size offset h g.
      (zero_in_word-ZeroFrom (size - offset) bits size offset (omega arith)).hit g;
}

-- Blocks 0 to 2 and 5 are taken, and nothing else below 16.
abbrev some_blocks : Bits
some_blocks j = ltb j 3 || j == 5

-- the same behind a checksum of 0
abbrev page : Bits
page j = if ltb j 32 then false else some_blocks (j - 32)

abbrev node : Bnode
node = record { wpage = page; cpage = page; first_zero_bit = 2; loaded = true }

node-IsBnode : (j : ℕ) → 0 ≤ j → j < 2 → page (j + 32) ≡ true
node-IsBnode j l h = ground arith

search_one_bitmap_forward_lem_example :
    SearchFrom node 0 16 1 4 true success
      (check_struct_bnode node 4092)
      (search_one_bitmap_forward find_zero 4092 success node 0 16 1 4)
search_one_bitmap_forward_lem_example =
    search_one_bitmap_forward_lem find_zero-FindsZero 4092 success node 0 16 1 4 (omega arith)
      (omega arith) node-IsBnode

abbrev last_free : Bnode
last_free = record {
  wpage = (λ j. ltb j 47);
  cpage = (λ j. ltb j 47);
  first_zero_bit = 15;
  loaded = true;
}

last_free-is_free : Run false (from_bit last_free.wpage 32) 15 16
last_free-is_free j l h = ground arith

search_forward_misses_example :
    search_loaded_forward find_zero last_free 0 16 1 1 ≡ (last_free, 0, nothing)
search_forward_misses_example =
    search_forward_misses find_zero last_free 0 1 1 (omega arith) last_free-is_free

adler32_lem_example :
    adler32 (7 ∷ 255 ∷ [])
    ≡ (sums (7 ∷ 255 ∷ []) 1 0).1 % 65521 * 2 ^ 16 + (sums (7 ∷ 255 ∷ []) 1 0).0 % 65521
adler32_lem_example = adler32_lem (7 ∷ 255 ∷ []) (omega arith)

adler32_recalc_lem_example :
    adler32_recalc (adler32 (7 ∷ 255 ∷ 3 ∷ [])) 255 1 2 ≡ adler32 (7 ∷ 1 ∷ 3 ∷ [])
adler32_recalc_lem_example =
    adler32_recalc_lem (7 ∷ []) (3 ∷ []) 255 1 (omega arith) (omega arith) (omega arith)
      (omega arith) (omega arith)

backward_loop_lem_example :
    BackwardResult (from_bit page 32) 15 0 2 4 (backward_loop 16 node 15 0 2 4)
backward_loop_lem_example =
    backward_loop_lem node 0 2 4 (omega arith) (omega arith) 16 15 (omega arith)

-- Blocks of 8 bytes, so that a bitmap has 32 bits.
abbrev nodes : Nodes
nodes i = node

abbrev all_read : ℕ → Status
all_read i = success

nodes-AreNodes : AreNodes nodes
nodes-AreNodes i = node-IsBnode

-- from block 40, of a device of 100 blocks, up to 3 blocks
abbrev hint : Hint
hint = record { blk = 40; max_dist = 0; level = 0; block_stage = unallocated; backward = false }

some_bits : 0 < bmap_bit_count 8
unfolding bmap_bit_count
some_bits = omega arith

alloc_blocks_bitmap_lem_example :
    AllocResult
      (bmap_bit_count 8)
      nodes
      0
      100
      3
      (alloc_blocks_bitmap 8 all_read find_zero 100 nodes hint 3)
alloc_blocks_bitmap_lem_example =
    alloc_blocks_bitmap_lem 8 all_read some_bits 3 (omega arith) find_zero-FindsZero 100 nodes hint
      nodes-AreNodes (omega arith) (omega arith)

nodes_load :
    (load_and_lock_bnode 8 (all_read (37 / bmap_bit_count 8)) (nodes (37 / bmap_bit_count 8))).0
    ≡ success
unfolding load_and_lock_bnode
nodes_load = refl

inside_one : 37 % bmap_bit_count 8 + 1 ≤ bmap_bit_count 8
unfolding bmap_bit_count
inside_one = omega arith

dealloc_blocks_bitmap_lem_example :
    DeallocResult (bmap_bit_count 8) nodes 37 1 (dealloc_blocks_bitmap 8 all_read nodes 37 1)
dealloc_blocks_bitmap_lem_example =
    dealloc_blocks_bitmap_lem 8 all_read some_bits nodes 37 1 nodes-AreNodes (omega arith)
      inside_one nodes_load

-- Blocks 40 to 42 are the first three from the hint on.
alloc_at_hint : (alloc_blocks_bitmap 8 all_read find_zero 100 nodes hint 3).0 ≡ region 40 3
unfolding alloc_blocks_bitmap zero_in_word
alloc_at_hint = refl

-- Backwards from block 4 of the first bitmap, blocks 3 and 4 are free, and block 2 is not.
alloc_backward :
    (alloc_blocks_bitmap 8 all_read find_zero 100 nodes
      (record hint { blk = 4; backward = true })
      3).0
    ≡ region 3 2
unfolding alloc_blocks_bitmap
alloc_backward = refl

nodes-AreReady : (i : ℕ) → (load_and_lock_bnode 8 (all_read i) (nodes i)).0 ≡ success
unfolding load_and_lock_bnode
nodes-AreReady i = refl

-- Blocks 0 to 2 are in use.
check_blocks_bitmap_lem_example :
    CheckResult true
      (bmap_bit_count 8)
      nodes
      0
      3
      (check_blocks_bitmap 8 all_read find_zero true nodes 0 (some 3))
check_blocks_bitmap_lem_example =
    check_blocks_bitmap_lem 8 all_read some_bits find_zero-FindsZero true nodes 0 (some 3)
      nodes-AreNodes nodes-AreReady (omega arith)

all_in_use : (check_blocks_bitmap 8 all_read find_zero true nodes 0 (some 3)).0 ≡ true
unfolding check_blocks_bitmap zero_in_word
all_in_use = refl

not_all_free : (check_blocks_bitmap 8 all_read find_zero false nodes 3 (some 30)).0 ≡ false
unfolding check_blocks_bitmap
not_all_free = refl

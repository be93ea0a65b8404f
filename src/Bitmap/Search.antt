-- ===== src/Bitmap/Search.antt =====
-- The whole search in one bitmap block, forwards: load the block, skip to the first zero bit, run the
-- loop. Also the blocks that it cannot find.
use native.Mathlib.Decide.{dec_le}
use mathlib.Core.Path.{subst}
use reiser.Base.{
  ℕ, zero, suc, ◌+◌, ◌-◌, ◌≤◌, ◌<◌, ◌≡◌, refl, sym, ap, Bool, true, false, Option, none, some,
  if◌then◌else◌, leb, arith,
}
use reiser.Space.Grab.{Status, success, failed}
use reiser.Bitmap.Bits.{Bits}
use reiser.Bitmap.Scan.{Run}
use reiser.Bitmap.Node.{
  Bnode, bnode_working_data, Len, nothing, found, error, forward_loop, answer,
  search_loaded_forward, search_one_bitmap_forward, load_and_lock_bnode, loaded_bnode,
  check_struct_bnode,
}
use reiser.Bitmap.Forward.{FindsZero, IsBnode, IsTaken, NoneFree, ForwardResult, forward_loop_lem}

-- How a search of a loaded block may end: `offset` is where it was asked to start, and `o` where it
-- says that the blocks are.
abbrev pub SearchResult : Bnode → (offset max_offset min_len max_len : ℕ) → Bnode × ℕ × Len → Type 0
SearchResult bnode offset max_offset min_len max_len (bnode', o, nothing) =
    (o ≡ offset)
    × (bnode'.wpage ≡ bnode.wpage)
    × (bnode'.cpage ≡ bnode.cpage)
    × (bnode'.loaded ≡ bnode.loaded)
    × IsBnode bnode'
    × NoneFree bnode offset (max_offset - min_len) min_len
SearchResult bnode offset max_offset min_len max_len (bnode', o, found n) =
    IsTaken bnode bnode' o (o + n)
    × IsBnode bnode'
    × (offset ≤ o)
    × (0 < n)
    × (o + n ≤ max_offset)
    × (n ≤ max_len)
    × NoneFree bnode offset o min_len
SearchResult bnode offset max_offset min_len max_len (bnode', o, error e) = ⊥

-- The bits below the place where the loop starts are set, if the first zero bit is not before it.
skipped :
    (bnode : Bnode) (offset start hi min_len : ℕ)
    → IsBnode bnode
    → 0 < min_len
    → (offset < start → start ≤ bnode.first_zero_bit)
    → NoneFree bnode start hi min_len
    → NoneFree bnode offset hi min_len
skipped bnode offset start hi min_len v h low none_free s l g free = elim (dec_le start s) [
  | yes p ↦ none_free s p g free
  | no p ↦
      cc (v s (omega arith) (omega (arith, low (omega arith))), free s (omega arith) (omega arith))
]

answer-SearchResult :
    (bnode : Bnode) (offset start max_offset min_len max_len : ℕ) (r : Bnode × Option (ℕ × ℕ))
    → IsBnode bnode
    → 0 < min_len
    → offset ≤ start
    → (offset < start → start ≤ bnode.first_zero_bit)
    → ForwardResult bnode start max_offset min_len max_len r
    → SearchResult bnode offset max_offset min_len max_len (answer offset r)
answer-SearchResult bnode offset start max_offset min_len max_len (bnode', none) v h le low
      (w, c, d, v', f) =
    (refl, w, c, d, v', skipped bnode offset start (max_offset - min_len) min_len v h low f)
answer-SearchResult bnode offset start max_offset min_len max_len (bnode', some (s, e)) v h le low
      (t, v', l, lt, m, x, f) =
    let back : s + (e - s) ≡ e = omega (arith, lt) in
    (
      subst (IsTaken bnode bnode' s) (sym back) t,
      v',
      omega (arith, l),
      omega (arith, lt),
      omega (arith, lt, m),
      omega (arith, lt, x),
      skipped bnode offset start s min_len v h low f,
    )

pub search_loaded_forward_lem :
    {find : Bits → ℕ → ℕ → ℕ}
    → FindsZero find
    → (bnode : Bnode) (offset max_offset min_len max_len : ℕ) → 0 < min_len
    → min_len ≤ max_len
    → IsBnode bnode
    → SearchResult bnode offset max_offset min_len max_len
        (search_loaded_forward find bnode offset max_offset min_len max_len)
unfolding search_loaded_forward
search_loaded_forward_lem {find} z bnode offset max_offset min_len max_len h g v =
    let skip = leb offset bnode.first_zero_bit in
    let start = if skip then bnode.first_zero_bit else offset in
    answer-SearchResult bnode offset start max_offset min_len max_len
      (forward_loop find max_offset bnode start skip max_offset min_len max_len) v h (ground arith)
      (λ l. ground arith)
      (forward_loop_lem z max_offset min_len max_len h g max_offset bnode start skip v
        (λ e.
          subst
            (λ b.
              Run true (bnode_working_data bnode) 0 (if b then bnode.first_zero_bit else offset))
            (sym e) v)
        (omega arith))

-- load_and_lock_bnode, from whether the node is loaded, whether its block could be read, and what the
-- check of it says
abbrev pub load_from : Bnode → (is_loaded : Bool) (prepared checked : Status) → Status × Bnode
load_from bnode is_loaded prepared checked = if is_loaded then (success, bnode) else elim prepared [
  | failed e ↦ (failed e, bnode)
  | success ↦ elim checked [
    | failed e ↦ (failed e, bnode)
    | success ↦ (success, loaded_bnode bnode)
  ]
]

abbrev search_after :
    (Bits → ℕ → ℕ → ℕ) → (offset max_offset min_len max_len : ℕ) → Status × Bnode → Bnode × ℕ × Len
search_after find offset max_offset min_len max_len q =
    let (ret, bnode') = q in
    elim ret [
      | failed e ↦ (bnode', offset, error e)
      | success ↦ search_loaded_forward find bnode' offset max_offset min_len max_len
    ]

-- How the search may end, from the same.
abbrev pub SearchFrom :
    Bnode
    → (offset max_offset min_len max_len : ℕ) (is_loaded : Bool) (prepared checked : Status)
    → Bnode × ℕ × Len
    → Type 0
SearchFrom bnode offset max_offset min_len max_len true prepared checked r =
    SearchResult bnode offset max_offset min_len max_len r
SearchFrom bnode offset max_offset min_len max_len false (failed e) checked r =
    r ≡ (bnode, offset, error e)
SearchFrom bnode offset max_offset min_len max_len false success (failed e) r =
    r ≡ (bnode, offset, error e)
SearchFrom bnode offset max_offset min_len max_len false success success r =
    SearchResult (loaded_bnode bnode) offset max_offset min_len max_len r

search_after-SearchFrom :
    {find : Bits → ℕ → ℕ → ℕ}
    → FindsZero find
    → (bnode : Bnode) (offset max_offset min_len max_len : ℕ) → 0 < min_len
    → min_len ≤ max_len
    → (is_loaded : Bool) (prepared checked : Status)
    → (if is_loaded then IsBnode bnode else bnode.first_zero_bit ≡ 0)
    → SearchFrom bnode offset max_offset min_len max_len is_loaded prepared checked (
        search_after find offset max_offset min_len max_len
          (load_from bnode is_loaded prepared checked))
unfolding loaded_bnode
search_after-SearchFrom z bnode offset max_offset min_len max_len h g true prepared checked v =
    search_loaded_forward_lem z bnode offset max_offset min_len max_len h g v
search_after-SearchFrom z bnode offset max_offset min_len max_len h g false (failed e) checked v =
    refl
search_after-SearchFrom z bnode offset max_offset min_len max_len h g false success (failed e) v =
    refl
search_after-SearchFrom z bnode offset max_offset min_len max_len h g false success success v =
    search_loaded_forward_lem z (loaded_bnode bnode) offset max_offset min_len max_len h g
      (λ j l k. absurd (omega (arith, v)))

-- search_one_bitmap_forward, where the kernel's search finds the next clear bit, for at least one block
-- and at most max_len, on a node the bits of which below its first zero bit are set (a node
-- that is not loaded has 0 there): an unreadable or unsound block is an error and changes nothing;
-- a loaded node is searched as it is, and one that is not loaded with the COMMIT bitmap as its
-- working bitmap. A search that finds blocks takes exactly those, all of them were free, they lie
-- between the offset and the end and are at most max_len, and no min_len free blocks in a row begin
-- before them; one that finds none changes no bit, and then no min_len free blocks in a row end
-- before the last block of the range.
pub search_one_bitmap_forward_lem :
    {find : Bits → ℕ → ℕ → ℕ}
    → FindsZero find
    → (blocksize : ℕ) (prepared : Status) (bnode : Bnode) (offset max_offset min_len max_len : ℕ)
    → 0 < min_len
    → min_len ≤ max_len
    → (if bnode.loaded then IsBnode bnode else bnode.first_zero_bit ≡ 0)
    → SearchFrom bnode offset max_offset min_len max_len bnode.loaded prepared
        (check_struct_bnode bnode blocksize)
        (search_one_bitmap_forward find blocksize prepared bnode offset max_offset min_len max_len)
unfolding search_one_bitmap_forward load_and_lock_bnode
search_one_bitmap_forward_lem z blocksize prepared bnode offset max_offset min_len max_len h g =
    search_after-SearchFrom z bnode offset max_offset min_len max_len h g bnode.loaded prepared
      (check_struct_bnode bnode blocksize)

loop_stops :
    (find : Bits → ℕ → ℕ → ℕ) (fuel : ℕ) (bnode : Bnode) (start : ℕ) (flag : Bool)
    (max_offset min_len max_len : ℕ)
    → max_offset ≤ start + min_len
    → forward_loop find fuel bnode start flag max_offset min_len max_len ≡ (bnode, none)
unfolding forward_loop
loop_stops find zero bnode start flag max_offset min_len max_len h = refl
loop_stops find (suc fuel) bnode start flag max_offset min_len max_len h = ground arith

-- When the first zero bit is where the last `min_len` blocks of the range begin, a search from it or
-- from before it finds nothing, although all those blocks are free: the loop asks for
-- `start + min_len < max_offset`.
pub search_forward_misses :
    (find : Bits → ℕ → ℕ → ℕ) (bnode : Bnode) (offset min_len max_len : ℕ)
    → offset ≤ bnode.first_zero_bit
    → Run false (bnode_working_data bnode) bnode.first_zero_bit (bnode.first_zero_bit + min_len)
    → search_loaded_forward find bnode offset (bnode.first_zero_bit + min_len) min_len max_len
      ≡ (bnode, offset, nothing)
unfolding search_loaded_forward
search_forward_misses find bnode offset min_len max_len h free =
    let skip = leb offset bnode.first_zero_bit in
    let top = bnode.first_zero_bit + min_len in
    ap (answer offset) (
      loop_stops find top bnode (if skip then bnode.first_zero_bit else offset) skip top min_len
        max_len (ground arith))

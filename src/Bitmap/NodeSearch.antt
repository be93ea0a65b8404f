-- ===== src/Bitmap/NodeSearch.antt =====
-- What a search in one bitmap block, in either direction, does to the blocks that the block stands
-- for, whether it was loaded before or not.
use mathlib.Core.Path.{subst}
use reiser.Base.{
  ℕ, ◌+◌, ◌-◌, ◌≤◌, ◌<◌, ◌≡◌, refl, sym, ap, ◌∙◌, Bool, true, false, ◌||◌, Option, none, some,
  if◌then◌else◌, ltb, arith,
}
use reiser.Space.Grab.{Status, success, failed}
use reiser.Bitmap.Bits.{Bits}
use reiser.Bitmap.Scan.{Run}
use reiser.Bitmap.Node.{
  Bnode, bnode_working_data, with_data, Len, nothing, found, error, take_bits, check_struct_bnode,
  load_and_lock_bnode, loaded_bnode, search_one_bitmap_forward,
}
use reiser.Bitmap.Forward.{FindsZero, IsBnode, IsTaken, in_range, take_bits-IsTaken}
use reiser.Bitmap.Search.{SearchResult, SearchFrom, load_from, search_one_bitmap_forward_lem}
use reiser.Bitmap.Backward.{backward_loop, take_found, search_one_bitmap_backward}
use reiser.Bitmap.BackwardLaws.{BackwardResult, backward_loop_lem}

-- The first zero bit of a node that is not loaded is 0, as the node is allocated.
abbrev pub IsNode : Bnode → Type 0
IsNode bnode = if bnode.loaded then IsBnode bnode else bnode.first_zero_bit ≡ 0

-- Which blocks are in use: before a node is loaded its COMMIT bitmap says it.
abbrev pub node_bits : Bnode → Bits
node_bits bnode j = if bnode.loaded then bnode.wpage (j + 32) else bnode.cpage (j + 32)

-- A search between `low` and `high` either takes a run of at most `max_len` free blocks or leaves the
-- blocks as they are.
abbrev pub NodeResult : Bnode → (low high max_len : ℕ) → Bnode × ℕ × Len → Type 0
NodeResult bnode low high max_len (bnode', o, nothing) =
    IsNode bnode' × (o ≤ high) × ((j : ℕ) → node_bits bnode' j ≡ node_bits bnode j)
NodeResult bnode low high max_len (bnode', o, error e) =
    IsNode bnode' × ((j : ℕ) → node_bits bnode' j ≡ node_bits bnode j)
NodeResult bnode low high max_len (bnode', o, found n) =
    IsNode bnode'
    × ((j : ℕ) → node_bits bnode' j ≡ (in_range o (o + n) j || node_bits bnode j))
    × Run false (node_bits bnode) o (o + n)
    × (low ≤ o)
    × (0 < n)
    × (o + n ≤ high)
    × (n ≤ max_len)

pub loaded-IsNode : (bnode : Bnode) → bnode.loaded ≡ true → IsBnode bnode → IsNode bnode
loaded-IsNode bnode e v =
    subst (λ b. if b then IsBnode bnode else bnode.first_zero_bit ≡ 0) (sym e) v

pub IsNode-loaded : (bnode : Bnode) → bnode.loaded ≡ true → IsNode bnode → IsBnode bnode
IsNode-loaded bnode e v = subst (λ b. if b then IsBnode bnode else bnode.first_zero_bit ≡ 0) e v

pub loaded-bits :
    (bnode : Bnode) (j : ℕ) → bnode.loaded ≡ true → node_bits bnode j ≡ bnode_working_data bnode j
loaded-bits bnode j e = ap (λ b. if b then bnode.wpage (j + 32) else bnode.cpage (j + 32)) e

-- `base` is the node that is searched: `bnode`, once it is loaded.
module _ (bnode base : Bnode) (is_loaded : base.loaded ≡ true)
    (same : (j : ℕ) → bnode_working_data base j ≡ node_bits bnode j) (low high max_len : ℕ) where
  taken-NodeResult :
      (bnode' : Bnode) (o n : ℕ)
      → IsTaken base bnode' o (o + n)
      → IsBnode bnode'
      → low ≤ o
      → 0 < n
      → o + n ≤ high
      → n ≤ max_len
      → NodeResult bnode low high max_len (bnode', o, found n)
  taken-NodeResult bnode' o n t v l s h m =
      let e : bnode'.loaded ≡ true = t.kept_loaded ∙ is_loaded in
      (
        loaded-IsNode bnode' e v,
        λ j. loaded-bits bnode' j e ∙ t.now_taken j ∙ ap (λ b. in_range o (o + n) j || b) (same j),
        λ j k g. sym (same j) ∙ t.was_free j k g,
        l,
        s,
        h,
        m,
      )

  kept-bits :
      (bnode' : Bnode)
      → bnode'.loaded ≡ base.loaded
      → bnode'.wpage ≡ base.wpage
      → (j : ℕ) → node_bits bnode' j ≡ node_bits bnode j
  kept-bits bnode' d w j = loaded-bits bnode' j (d ∙ is_loaded) ∙ ap (λ p. p (j + 32)) w ∙ same j

  search-NodeResult :
      (min_len : ℕ) (r : Bnode × ℕ × Len)
      → low ≤ high
      → SearchResult base low high min_len max_len r
      → NodeResult bnode low high max_len r
  search-NodeResult min_len (bnode', o, nothing) le (e, w, c, d, v, f) =
      (loaded-IsNode bnode' (d ∙ is_loaded) v, omega (arith, e), kept-bits bnode' d w)
  search-NodeResult min_len (bnode', o, found n) le (t, v, l, s, h, m, f) =
      taken-NodeResult bnode' o n t v l s h m
  search-NodeResult min_len (bnode', o, error e) le x = elim x [ ]

  back-NodeResult :
      (start min_len : ℕ) (o : Option (ℕ × ℕ))
      → IsBnode base
      → start < high
      → BackwardResult (bnode_working_data base) start low min_len max_len o
      → NodeResult bnode low high max_len (take_found base start o)
  unfolding take_bits
  back-NodeResult start min_len none v h f =
      (loaded-IsNode base is_loaded v, omega arith, kept-bits base refl refl)
  back-NodeResult start min_len (some (s, e)) v h (run, l, lt, m, x, f) =
      let back : s + (e - s) ≡ e = omega (arith, lt) in
      let t = take_bits-IsTaken base s e lt run in
      taken-NodeResult (take_bits base s e) s (e - s)
        (subst (IsTaken base (take_bits base s e) s) (sym back) t)
        (λ j k g. ground (arith, t.now_taken j, v j k g)) l (omega (arith, lt))
        (omega (arith, lt, m)) (omega (arith, lt, x))

pub loaded_bnode-data :
    (bnode : Bnode) (j : ℕ)
    → bnode.loaded ≡ false
    → bnode_working_data (loaded_bnode bnode) j ≡ node_bits bnode j
unfolding loaded_bnode with_data
loaded_bnode-data bnode j e =
    ap (λ k. if ltb (j + 32) 32 then bnode.wpage (j + 32) else bnode.cpage (k + 32))
      {x = j + 32 - 32} {y = j} (omega arith)
    ∙ ground arith

pub zero-IsBnode : (bnode : Bnode) → bnode.first_zero_bit ≡ 0 → IsBnode bnode
zero-IsBnode bnode e j l h = absurd (omega arith)

pub IsNode-zero : (bnode : Bnode) → bnode.loaded ≡ false → IsNode bnode → bnode.first_zero_bit ≡ 0
IsNode-zero bnode e v = subst (λ b. if b then IsBnode bnode else bnode.first_zero_bit ≡ 0) e v

SearchFrom-NodeResult :
    (bnode : Bnode) (offset max_offset min_len max_len : ℕ) (is_loaded : Bool)
    (prepared checked : Status) (r : Bnode × ℕ × Len)
    → bnode.loaded ≡ is_loaded
    → IsNode bnode
    → offset ≤ max_offset
    → SearchFrom bnode offset max_offset min_len max_len is_loaded prepared checked r
    → NodeResult bnode offset max_offset max_len r
unfolding loaded_bnode
SearchFrom-NodeResult bnode offset max_offset min_len max_len true prepared checked r e v le x =
    search-NodeResult bnode bnode e (λ j. sym (loaded-bits bnode j e)) offset max_offset max_len
      min_len r le x
SearchFrom-NodeResult bnode offset max_offset min_len max_len false (failed c) checked r e v le x =
    subst (NodeResult bnode offset max_offset max_len) (sym x) (v, λ j. refl)
SearchFrom-NodeResult bnode offset max_offset min_len max_len false success (failed c) r e v le x =
    subst (NodeResult bnode offset max_offset max_len) (sym x) (v, λ j. refl)
SearchFrom-NodeResult bnode offset max_offset min_len max_len false success success r e v le x =
    search-NodeResult bnode (loaded_bnode bnode) refl (λ j. loaded_bnode-data bnode j e) offset
      max_offset max_len min_len r le x

pub forward-NodeResult :
    {find : Bits → ℕ → ℕ → ℕ}
    → FindsZero find
    → (blocksize : ℕ) (prepared : Status) (bnode : Bnode) (offset max_offset min_len max_len : ℕ)
    → 0 < min_len
    → min_len ≤ max_len
    → offset ≤ max_offset
    → IsNode bnode
    → NodeResult bnode offset max_offset max_len
        (search_one_bitmap_forward find blocksize prepared bnode offset max_offset min_len max_len)
forward-NodeResult {find} z blocksize prepared bnode offset max_offset min_len max_len h g le v =
    SearchFrom-NodeResult bnode offset max_offset min_len max_len bnode.loaded prepared
      (check_struct_bnode bnode blocksize)
      (search_one_bitmap_forward find blocksize prepared bnode offset max_offset min_len max_len)
      refl v le
      (search_one_bitmap_forward_lem z blocksize prepared bnode offset max_offset min_len max_len h
        g v)

-- the backward search behind the loading of the node
abbrev back_after : (start end_offset min_len max_len : ℕ) → Status × Bnode → Bnode × ℕ × Len
back_after start end_offset min_len max_len q =
    let (ret, bnode') = q in
    elim ret [
      | failed e ↦ (bnode', start, error e)
      | success ↦
          take_found bnode' start
            (backward_loop (start + 1) bnode' start end_offset min_len max_len)
    ]

back_after-NodeResult :
    (bnode : Bnode) (start end_offset high min_len max_len : ℕ) (is_loaded : Bool)
    (prepared checked : Status)
    → 0 < min_len
    → min_len ≤ max_len
    → start < high
    → bnode.loaded ≡ is_loaded
    → IsNode bnode
    → NodeResult bnode end_offset high max_len
        (back_after start end_offset min_len max_len (load_from bnode is_loaded prepared checked))
unfolding loaded_bnode
back_after-NodeResult bnode start end_offset high min_len max_len true prepared checked h g s e v =
    back-NodeResult bnode bnode e (λ j. sym (loaded-bits bnode j e)) end_offset high max_len start
      min_len (backward_loop (start + 1) bnode start end_offset min_len max_len)
      (IsNode-loaded bnode e v) s
      (backward_loop_lem bnode end_offset min_len max_len h g (start + 1) start (omega arith))
back_after-NodeResult bnode start end_offset high min_len max_len false (failed c) checked h g s e
      v =
    (v, λ j. refl)
back_after-NodeResult bnode start end_offset high min_len max_len false success (failed c) h g s e
      v =
    (v, λ j. refl)
back_after-NodeResult bnode start end_offset high min_len max_len false success success h g s e v =
    let base = loaded_bnode bnode in
    back-NodeResult bnode base refl (λ j. loaded_bnode-data bnode j e) end_offset high max_len start
      min_len (backward_loop (start + 1) base start end_offset min_len max_len)
      (zero-IsBnode base (IsNode-zero bnode e v)) s
      (backward_loop_lem base end_offset min_len max_len h g (start + 1) start (omega arith))

pub backward-NodeResult :
    (blocksize : ℕ) (prepared : Status) (bnode : Bnode) (start end_offset high min_len max_len : ℕ)
    → 0 < min_len
    → min_len ≤ max_len
    → start < high
    → IsNode bnode
    → NodeResult bnode end_offset high max_len
        (search_one_bitmap_backward blocksize prepared bnode start end_offset min_len max_len)
unfolding search_one_bitmap_backward load_and_lock_bnode
backward-NodeResult blocksize prepared bnode start end_offset high min_len max_len h g s v =
    back_after-NodeResult bnode start end_offset high min_len max_len bnode.loaded prepared
      (check_struct_bnode bnode blocksize) h g s refl v

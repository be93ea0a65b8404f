-- ===== src/Bitmap/BackwardLaws.antt =====
-- The backward search in one bitmap block: what it finds, and what it passes over.
use native.Mathlib.Decide.{dec_le}
use reiser.Base.{
  ℕ, zero, suc, ◌+◌, ◌-◌, ◌≤◌, ◌<◌, ◌≡◌, ◌≢◌, ap, ◌∙◌, true, false, Option, none, some,
  if◌then◌else◌, if_cases, ltb, leb, arith,
}
use reiser.Bitmap.Bits.{Bits, find_last_set_bit, find_last_zero_bit}
use reiser.Bitmap.Scan.{Run}
use reiser.Bitmap.ScanBack.{LastSet, LastZero, find_last_set_bit_lem, find_last_zero_bit_lem}
use reiser.Bitmap.Node.{Bnode, bnode_working_data}
use reiser.Bitmap.Backward.{search_end_of, region_end, at_least, backward_loop}

-- No `min_len` free blocks in a row, from `low` on, end behind `stop` and at `start` or before it.
abbrev pub NoneEnding : Bits → (low stop start min_len : ℕ) → Type 0
NoneEnding bits low stop start min_len =
    (s : ℕ)
    → low ≤ s
    → stop < s + min_len
    → s + min_len ≤ start + 1
    → ¬ Run false bits s (s + min_len)

abbrev pub BackwardResult : Bits → (start end_offset min_len max_len : ℕ) → Option (ℕ × ℕ) → Type 0
BackwardResult bits start end_offset min_len max_len none =
    NoneEnding bits end_offset 0 start min_len
BackwardResult bits start end_offset min_len max_len (some (s, e)) =
    Run false bits s e
    × (end_offset ≤ s)
    × (s < e)
    × (e ≤ start + 1)
    × (e ≤ s + max_len)
    × NoneEnding bits end_offset e start min_len

-- What the search for a set bit says of the free region that ends at `z`.
record FreeRegion (bits : Bits) (z end_offset min_len search_end end : ℕ) : Type 0 where
  free : Run false bits (at_least search_end end) (z + 1)
  short_set : end_offset < end → z + 1 < end + min_len → bits (end - 1) ≡ true
  short_low : end_offset < end → z + 1 < end + min_len → end ≤ z

region_end-FreeRegion :
    (bits : Bits) (z end_offset min_len max_len : ℕ) (o : Option ℕ)
    → min_len ≤ max_len
    → end_offset ≤ z
    → bits z ≡ false
    → LastSet bits (search_end_of z end_offset max_len) z o
    → FreeRegion bits z end_offset min_len
        (search_end_of z end_offset max_len)
        (region_end (search_end_of z end_offset max_len) o)
region_end-FreeRegion bits z end_offset min_len max_len none g l clear run = record {
  free = λ j h k. run j (ground arith) k;
  short_set = λ h k. absurd (ground arith);
  short_low = λ h k. absurd (ground arith);
}
region_end-FreeRegion bits z end_offset min_len max_len (some r) g l clear (set, le, run) =
    let apart : r ≢ z = λ e. cc (ap bits e, set, clear) in
    record {
      free = λ j h k. run j (ground arith) k;
      short_set = λ h k. ap bits {x = r + 1 - 1} {y = r} (omega arith) ∙ set;
      short_low = λ h k. omega arith;
    }

module _ (bits : Bits) (end_offset min_len : ℕ) (some_len : 0 < min_len) where
  -- A region that ends behind the last zero bit has a set bit in it.
  ends_set :
      (start z s : ℕ)
      → Run true bits (z + 1) (start + 1)
      → z + 1 < s + min_len
      → s + min_len ≤ start + 1
      → ¬ Run false bits s (s + min_len)
  ends_set start z s passed behind high free =
      let k = s + min_len - 1 in
      cc (passed k (omega arith) (omega arith), free k (omega arith) (omega arith))

  NoneEnding-stop :
      (start z low : ℕ)
      → Run true bits (z + 1) (start + 1)
      → z + 1 < end_offset + min_len
      → NoneEnding bits end_offset low start min_len
  NoneEnding-stop start z low passed h s l b t free = ends_set start z s passed (omega arith) t free

  NoneEnding-past :
      (start z end stop : ℕ)
      → Run true bits (z + 1) (start + 1)
      → 0 < end
      → z + 1 < end + min_len
      → bits (end - 1) ≡ true
      → NoneEnding bits end_offset stop (end - 1) min_len
      → NoneEnding bits end_offset stop start min_len
  NoneEnding-past start z end stop passed some_end short set later s l b t free =
      elim (dec_le (s + min_len) (z + 1)) [
        | no p ↦ ends_set start z s passed (omega arith) t free
        | yes p ↦ elim (dec_le (s + min_len) (end - 1 + 1)) [
          | yes q ↦ later s l b q free
          | no q ↦ cc (set, free (end - 1) (omega arith) (omega arith))
        ]
      ]

  BackwardResult-past :
      (start z end max_len : ℕ) (r : Option (ℕ × ℕ))
      → Run true bits (z + 1) (start + 1)
      → z ≤ start
      → end_offset < end
      → end ≤ z
      → z + 1 < end + min_len
      → bits (end - 1) ≡ true
      → BackwardResult bits (end - 1) end_offset min_len max_len r
      → BackwardResult bits start end_offset min_len max_len r
  BackwardResult-past start z end max_len none passed le h k short set later =
      NoneEnding-past start z end 0 passed (omega arith) short set later
  BackwardResult-past start z end max_len (some (s, e)) passed le h k short set
        (f, l, lt, m, x, n) =
      (
        f,
        l,
        lt,
        omega (arith, m),
        x,
        NoneEnding-past start z end e passed (omega arith) short set n,
      )

  module _ (max_len : ℕ) (lens : min_len ≤ max_len) where
    -- one round of the loop, where `rest` is the loop from the next start
    round :
        (start z : ℕ) (o : Option ℕ) (rest : ℕ → Option (ℕ × ℕ))
        → bits z ≡ false
        → z ≤ start
        → Run true bits (z + 1) (start + 1)
        → (end_offset ≤ z → LastSet bits (search_end_of z end_offset max_len) z o)
        → ((next : ℕ) → next < z → BackwardResult bits next end_offset min_len max_len (rest next))
        → let search_end = search_end_of z end_offset max_len in
          let end = region_end search_end o in
          BackwardResult bits start end_offset min_len max_len (
            if ltb (z + 1) (end_offset + min_len)
            then none
            else if leb (end + min_len) (z + 1)
            then some (at_least search_end end, z + 1)
            else if leb end end_offset
            then none
            else rest (end - 1))
    round start z o rest clear le passed last later =
        let search_end = search_end_of z end_offset max_len in
        let end = region_end search_end o in
        let P = BackwardResult bits start end_offset min_len max_len in
        if_cases P (ltb (z + 1) (end_offset + min_len))
          (λ low. NoneEnding-stop start z 0 passed (ground arith))
          (λ high.
            let in_region : end_offset ≤ z = ground arith in
            let r =
              region_end-FreeRegion bits z end_offset min_len max_len o lens in_region clear
                (last in_region) in
            if_cases P (leb (end + min_len) (z + 1))
              (λ long. (
                r.free,
                ground arith,
                ground arith,
                omega arith,
                ground arith,
                λ s l b t free. ends_set start z s passed b t free,
              ))
              (λ short.
                if_cases P (leb end end_offset)
                  (λ at_end. NoneEnding-stop start z 0 passed (ground arith))
                  (λ goes_on.
                    let inside : end_offset < end = ground arith in
                    let low = r.short_low inside (ground arith) in
                    BackwardResult-past start z end max_len (rest (end - 1)) passed le inside low
                      (ground arith) (r.short_set inside (ground arith))
                      (later (end - 1) (omega arith)))))

-- what the loop does after its search for a zero bit
abbrev after_last_zero :
    Bits → (end_offset min_len max_len : ℕ) → (ℕ → Option (ℕ × ℕ)) → Option ℕ → Option (ℕ × ℕ)
after_last_zero bits end_offset min_len max_len rest o = elim o [
  | none ↦ none
  | some z ↦
      let search_end = search_end_of z end_offset max_len in
      let end = region_end search_end (find_last_set_bit bits search_end z) in
      if ltb (z + 1) (end_offset + min_len)
      then none
      else if leb (end + min_len) (z + 1)
      then some (at_least search_end end, z + 1)
      else if leb end end_offset
      then none
      else rest (end - 1)
]

module _ (bnode : Bnode) (end_offset min_len max_len : ℕ) (some_len : 0 < min_len)
    (lens : min_len ≤ max_len) where
  after_last_zero-BackwardResult :
      (start : ℕ) (rest : ℕ → Option (ℕ × ℕ)) (o : Option ℕ)
      → LastZero (bnode_working_data bnode) end_offset start o
      → ((next : ℕ)
          → next < start
          → BackwardResult (bnode_working_data bnode) next end_offset min_len max_len (rest next))
      → BackwardResult
          (bnode_working_data bnode)
          start
          end_offset
          min_len
          max_len
          (after_last_zero (bnode_working_data bnode) end_offset min_len max_len rest o)
  after_last_zero-BackwardResult start rest none run later =
      λ s l b t free. cc (run s l (omega arith), free s (omega arith) (omega arith))
  after_last_zero-BackwardResult start rest (some z) (clear, le, run) later =
      let search_end = search_end_of z end_offset max_len in
      round (bnode_working_data bnode) end_offset min_len some_len max_len lens start z
        (find_last_set_bit (bnode_working_data bnode) search_end z) rest clear le run
        (λ _. find_last_set_bit_lem (bnode_working_data bnode) search_end z)
        (λ next h. later next (omega arith))

  -- The loop of search_one_bitmap_backward, for at least one block and at most max_len, with more fuel
  -- than the offset it begins at: what it finds is a region of free blocks between the end offset and
  -- the start, at most max_len long, and no min_len free blocks in a row end behind it; where it finds
  -- nothing, no min_len free blocks in a row are there.
  pub backward_loop_lem :
      (fuel start : ℕ)
      → start < fuel
      → BackwardResult
          (bnode_working_data bnode)
          start
          end_offset
          min_len
          max_len
          (backward_loop fuel bnode start end_offset min_len max_len)
  unfolding backward_loop
  backward_loop_lem zero start enough = absurd (omega arith)
  backward_loop_lem (suc fuel) start enough =
      after_last_zero-BackwardResult start
        (λ next. backward_loop fuel bnode next end_offset min_len max_len)
        (find_last_zero_bit (bnode_working_data bnode) end_offset start)
        (find_last_zero_bit_lem (bnode_working_data bnode) end_offset start)
        (λ next h. backward_loop_lem fuel next (omega arith))

-- ===== src/Bitmap/Forward.antt =====
-- The search in one bitmap block, forwards: what it takes was free, and what it passes over was not.
use native.Mathlib.Decide.{dec_le}
use reiser.Base.{
  ℕ, zero, suc, ◌+◌, ◌-◌, ◌≤◌, ◌<◌, ◌≡◌, refl, ap, ◌∙◌, Bool, true, false, ◌&&◌, ◌||◌, Option, none,
  some, if◌then◌else◌, if_cases, ◌⊎◌, inl, inr, ltb, leb, arith,
}
use reiser.Bitmap.Bits.{Bits, from_bit, find_next_set_bit}
use reiser.Bitmap.Scan.{Run, Run-join, IsNextSet, find_next_set_bit_lem}
use reiser.Bitmap.Masks.{set_bits}
use reiser.Bitmap.Ranges.{set_bits_lem}
use reiser.Bitmap.Node.{
  Bnode, bnode_working_data, with_data, limit, take_bits, find_next_zero_bit, forward_loop,
}

-- What the kernel says of find_next_zero_bit_le: the first clear bit of an array from an offset
-- inside it on, or the size of the array.
pub record FindsZero (find : Bits → ℕ → ℕ → ℕ) : Type 0 where
  pub passes_set :
      (bits : Bits) (size offset : ℕ) → offset < size → Run true bits offset (find bits size offset)
  pub goes_on : (bits : Bits) (size offset : ℕ) → offset < size → offset ≤ find bits size offset
  pub stays_in : (bits : Bits) (size offset : ℕ) → offset < size → find bits size offset ≤ size
  pub hits :
      (bits : Bits) (size offset : ℕ)
      → offset < size
      → find bits size offset < size
      → bits (find bits size offset) ≡ false

-- The bits below `first_zero_bit` are set.
abbrev pub IsBnode : Bnode → Type 0
IsBnode bnode = Run true (bnode_working_data bnode) 0 bnode.first_zero_bit

abbrev pub in_range : ℕ → ℕ → ℕ → Bool
in_range lo hi j = leb lo j && ltb j hi

-- Blocks `start` up to `end`, all of them free, were taken from the bitmap, and nothing else changed.
pub record IsTaken (bnode bnode' : Bnode) (start end : ℕ) : Type 0 where
  pub was_free : Run false (bnode_working_data bnode) start end
  pub now_taken :
      (j : ℕ) → bnode_working_data bnode' j ≡ (in_range start end j || bnode_working_data bnode j)
  pub kept_commit : bnode'.cpage ≡ bnode.cpage
  pub kept_loaded : bnode'.loaded ≡ bnode.loaded

-- No `min_len` free blocks in a row begin at or behind `start` and before `hi`.
abbrev pub NoneFree : Bnode → (start hi min_len : ℕ) → Type 0
NoneFree bnode start hi min_len =
    (s : ℕ) → start ≤ s → s < hi → ¬ Run false (bnode_working_data bnode) s (s + min_len)

-- How the search from `start` may end.
abbrev pub ForwardResult :
    Bnode → (start max_offset min_len max_len : ℕ) → Bnode × Option (ℕ × ℕ) → Type 0
ForwardResult bnode start max_offset min_len max_len (bnode', none) =
    (bnode'.wpage ≡ bnode.wpage)
    × (bnode'.cpage ≡ bnode.cpage)
    × (bnode'.loaded ≡ bnode.loaded)
    × IsBnode bnode'
    × NoneFree bnode start (max_offset - min_len) min_len
ForwardResult bnode start max_offset min_len max_len (bnode', some (s, e)) =
    IsTaken bnode bnode' s e
    × IsBnode bnode'
    × (start ≤ s)
    × (s < e)
    × (e ≤ max_offset)
    × (e ≤ s + max_len)
    × NoneFree bnode start s min_len

pub take_bits-IsTaken :
    (bnode : Bnode) (s e : ℕ)
    → s < e
    → Run false (bnode_working_data bnode) s e
    → IsTaken bnode (take_bits bnode s e) s e
unfolding take_bits with_data
take_bits-IsTaken bnode s e h free = record {
  was_free = free;
  now_taken = λ j.
      let d = bnode_working_data bnode in
      ap (λ k. if ltb (j + 32) 32 then bnode.wpage (j + 32) else set_bits d s e k) {x = j + 32 - 32}
        {y = j} (omega arith)
      ∙ ground (arith, set_bits_lem d s e h j);
  kept_commit = refl;
  kept_loaded = refl;
}

IsTaken-IsBnode :
    (bnode bnode' : Bnode) (s e : ℕ)
    → IsTaken bnode bnode' s e
    → Run true (bnode_working_data bnode) 0 bnode'.first_zero_bit
    → IsBnode bnode'
IsTaken-IsBnode bnode bnode' s e t run j l h = ground (arith, t.now_taken j, run j l h)

pub limit-le : (a b : ℕ) → (limit a b ≤ a) × (limit a b ≤ b)
unfolding limit
limit-le a b = ground arith

pub limit-lt : (a b k : ℕ) → k < a → k < b → k < limit a b
unfolding limit
limit-lt a b k h g = ground arith

limit_cases : (a b : ℕ) → (limit a b ≡ a) ⊎ (limit a b ≡ b)
unfolding limit
limit_cases a b = ground arith

-- A set bit among them, or the end of the search, and the blocks are not all free.
set_inside : (bits : Bits) (s k n : ℕ) → s ≤ k → k < n → bits k ≡ true → ¬ Run false bits s n
set_inside bits s k n l h e run = cc (run k l h)

module _ {find : Bits → ℕ → ℕ → ℕ} (z : FindsZero find) (max_offset min_len max_len : ℕ)
    (some_len : 0 < min_len) (lens : min_len ≤ max_len) where
  -- what one search for a clear bit finds in the data
  pub record Zero (bits : Bits) (start r : ℕ) : Type 0 where
    pub passed : Run true bits start r
    pub low : start ≤ r
    pub high : r ≤ max_offset

  pub find_next_zero_bit-Zero :
      (page : Bits) (start : ℕ)
      → start < max_offset
      → Zero (from_bit page 32) start (find_next_zero_bit find 32 page max_offset start)
  unfolding find_next_zero_bit
  find_next_zero_bit-Zero page start h =
      let r = find page (max_offset + 32) (start + 32) in
      let low = z.goes_on page (max_offset + 32) (start + 32) (omega arith) in
      record {
        passed = λ j l k.
            z.passes_set page (max_offset + 32) (start + 32) (omega arith) (j + 32) (omega arith)
              (omega arith);
        low = omega arith;
        high = omega (arith, z.stays_in page (max_offset + 32) (start + 32) (omega arith));
      }

  -- Past the region that was too short, no long one was missed.
  NoneFree-past :
      (bnode : Bnode) (start s end hi : ℕ)
      → Run true (bnode_working_data bnode) start s
      → s < max_offset
      → IsNextSet (bnode_working_data bnode) (limit (s + max_len) max_offset) s end
      → end < s + min_len
      → ((k : ℕ) → max_offset ≤ end → k < hi → k + min_len < max_offset)
      → NoneFree bnode (end + 1) hi min_len
      → NoneFree bnode start hi min_len
  NoneFree-past bnode start s end hi passed lt n short bound later k low high free =
      let data' = bnode_working_data bnode in
      elim (dec_le (end + 1) k) [
        | yes p ↦ later k p high free
        | no p ↦ elim (dec_le s k) [
          | no q ↦ cc (passed k low (omega arith), free k (omega arith) (omega arith))
          | yes q ↦ elim n.hit [
            | inl set ↦ set_inside data' k end (k + min_len) (omega arith) (omega arith) set free
            | inr e ↦ elim (limit_cases (s + max_len) max_offset) [
              | inl f ↦ omega arith
              | inr f ↦ omega (arith, bound k (omega arith) high)
            ]
          ]
        ]
      ]

  -- What a search from behind a short region gives is what the whole search gives.
  ForwardResult-past :
      (bnode : Bnode) (zero_bit start s end : ℕ) (r : Bnode × Option (ℕ × ℕ))
      → Run true (bnode_working_data bnode) start s
      → start ≤ s
      → s < max_offset
      → IsNextSet (bnode_working_data bnode) (limit (s + max_len) max_offset) s end
      → end < s + min_len
      → ForwardResult
          (record bnode { first_zero_bit = zero_bit })
          (end + 1)
          max_offset
          min_len
          max_len
          r
      → ForwardResult bnode start max_offset min_len max_len r
  ForwardResult-past bnode zero_bit start s end (bnode', none) passed low lt n short
        (w, c, d, v, f) =
      (
        w,
        c,
        d,
        v,
        NoneFree-past bnode start s end (max_offset - min_len) passed lt n short
            (λ k h g. omega arith) f,
      )
  ForwardResult-past bnode zero_bit start s end (bnode', some (b, e)) passed low lt n short
        (t, v, l, h, m, x, f) =
      (
        record {
          was_free = t.was_free;
          now_taken = t.now_taken;
          kept_commit = t.kept_commit;
          kept_loaded = t.kept_loaded;
        },
        v,
        omega (arith, n.low),
        h,
        m,
        x,
        NoneFree-past bnode start s end b passed lt n short
            (λ k g g'. absurd (omega (arith, l, h, m))) f,
      )

  set_zero_bit-IsBnode :
      (bnode : Bnode) (start s : ℕ) (flag : Bool)
      → IsBnode bnode
      → (flag ≡ true → Run true (bnode_working_data bnode) 0 start)
      → Run true (bnode_working_data bnode) start s
      → Run true (bnode_working_data bnode) 0 (if flag then s else bnode.first_zero_bit)
  set_zero_bit-IsBnode bnode start s true v before passed =
      Run-join true (bnode_working_data bnode) 0 start s (before refl) passed
  set_zero_bit-IsBnode bnode start s false v before passed = v

  take_bits-ForwardResult :
      (bnode : Bnode) (zero_bit start s end : ℕ)
      → Run true (bnode_working_data bnode) start s
      → Run true (bnode_working_data bnode) 0 zero_bit
      → start ≤ s
      → s < max_offset
      → IsNextSet (bnode_working_data bnode) (limit (s + max_len) max_offset) s end
      → s + min_len ≤ end
      → let e = limit end (limit (s + max_len) max_offset) in
        ForwardResult bnode start max_offset min_len max_len
          (take_bits (record bnode { first_zero_bit = zero_bit }) s e, some (s, e))
  unfolding take_bits
  take_bits-ForwardResult bnode zero_bit start s end passed before low lt n long =
      let top = limit (s + max_len) max_offset in
      let bnode' = record bnode { first_zero_bit = zero_bit } in
      let in_top = limit-le (s + max_len) max_offset in
      let in_end = limit-le end top in
      let some_bits =
        limit-lt end top s (omega arith) (limit-lt (s + max_len) max_offset s (omega arith) lt) in
      let t =
        take_bits-IsTaken bnode' s (limit end top) some_bits (λ j l h. n.clear j l (omega arith)) in
      (
        record {
          was_free = t.was_free;
          now_taken = t.now_taken;
          kept_commit = t.kept_commit;
          kept_loaded = t.kept_loaded;
        },
        IsTaken-IsBnode bnode' (take_bits bnode' s (limit end top)) s (limit end top) t before,
        low,
        some_bits,
        omega arith,
        omega arith,
        λ k l h free. cc (passed k l h, free k (omega arith) (omega arith)),
      )

  -- The loop of search_one_bitmap_forward, with as much fuel as there are bits left, takes the first
  -- region that is long enough, or none is there.
  pub forward_loop_lem :
      (fuel : ℕ) (bnode : Bnode) (start : ℕ) (flag : Bool)
      → IsBnode bnode
      → (flag ≡ true → Run true (bnode_working_data bnode) 0 start)
      → max_offset ≤ start + fuel
      → ForwardResult bnode start max_offset min_len max_len
          (forward_loop find fuel bnode start flag max_offset min_len max_len)
  unfolding forward_loop
  forward_loop_lem zero bnode start flag v before enough =
      (refl, refl, refl, v, λ k l h free. absurd (omega arith))
  forward_loop_lem (suc fuel) bnode start flag v before enough =
      let data' = bnode_working_data bnode in
      let s = find_next_zero_bit find 32 bnode.wpage max_offset start in
      let zero_bit = if flag then s else bnode.first_zero_bit in
      let bnode' = record bnode { first_zero_bit = zero_bit } in
      let top = limit (s + max_len) max_offset in
      let end = find_next_set_bit 32 bnode.wpage top s in
      let P = ForwardResult bnode start max_offset min_len max_len in
      if_cases P (ltb (start + min_len) max_offset)
        (λ goes_on.
          let z = find_next_zero_bit-Zero bnode.wpage start (ground arith) in
          let v' = set_zero_bit-IsBnode bnode start s flag v before z.passed in
          if_cases P (leb max_offset s)
            (λ full. (
              refl,
              refl,
              refl,
              v',
              λ k l h free. cc (z.passed k l (ground arith), free k (omega arith) (omega arith)),
            ))
            (λ some_zero.
              let lt : s < max_offset = ground arith in
              let n =
                find_next_set_bit_lem 32 bnode.wpage top s
                  (limit-lt (s + max_len) max_offset s (omega arith) lt) in
              if_cases P (leb (s + min_len) end)
                (λ long.
                  take_bits-ForwardResult bnode zero_bit start s end z.passed v' z.low lt n
                    (ground arith))
                (λ short.
                  ForwardResult-past bnode zero_bit start s end
                    (forward_loop find fuel bnode' (end + 1) false max_offset min_len max_len)
                    z.passed z.low lt n (ground arith)
                    (forward_loop_lem fuel bnode' (end + 1) false v' (λ e. absurd (cc e))
                      (omega (arith, n.low, z.low))))))
        (λ stops. (refl, refl, refl, v, λ k l h free. absurd (ground arith)))

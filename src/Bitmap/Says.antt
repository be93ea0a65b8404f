-- ===== src/Bitmap/Says.antt =====
-- What a check of one bitmap says of its bits, and of the blocks they stand for.
use reiser.Base.{
  ℕ, ◌+◌, ◌-◌, ◌*◌, ◌%◌, ◌≤◌, ◌<◌, ◌≡◌, refl, sym, ap, ◌∙◌, Bool, true, false, leb, inl, inr, arith,
}
use reiser.Bitmap.Bits.{Bits, find_next_set_bit}
use reiser.Bitmap.Scan.{Run, Run-join, find_next_set_bit_lem}
use reiser.Bitmap.Node.{Bnode, bnode_working_data, find_next_zero_bit}
use reiser.Bitmap.Forward.{FindsZero, find_next_zero_bit-Zero}
use reiser.Bitmap.NodeSearch.{node_bits}
use reiser.Bitmap.Places.{div-place, mod-place}
use reiser.Bitmap.Alloc.{Nodes}
use reiser.Bitmap.AllocLaws.{in_use}
use reiser.Bitmap.Check.{check_loaded}

-- Whether every bit of the range has the value.
abbrev pub Says : Bool → Bits → (low high : ℕ) → Bool → Type 0
Says v bits low high true = Run v bits low high
Says v bits low high false = ¬ Run v bits low high

by_test :
    (v : Bool) (bits : Bits) (low high : ℕ) (test : Bool)
    → (test ≡ true → Run v bits low high)
    → (test ≡ false → ¬ Run v bits low high)
    → Says v bits low high test
by_test v bits low high true holds fails = holds refl
by_test v bits low high false holds fails = fails refl

module _ {find : Bits → ℕ → ℕ → ℕ} (z : FindsZero find) where
  pub check_loaded-Says :
      (desired : Bool) (bnode : Bnode) (start end : ℕ)
      → start < end
      → Says desired
          (bnode_working_data bnode)
          start
          end
          (check_loaded find desired bnode start end)
  unfolding check_loaded find_next_zero_bit
  check_loaded-Says true bnode start end h =
      let data' = bnode_working_data bnode in
      let page = bnode.wpage in
      let raw = find page (end + 32) (start + 32) in
      let r = find_next_zero_bit find 32 page end start in
      let low = z.goes_on page (end + 32) (start + 32) (omega arith) in
      let passed = find_next_zero_bit-Zero z end 1 1 (omega arith) (omega arith) page start h in
      by_test true data' start end (leb end r) (λ e j l k. passed.passed j l (ground arith))
        (λ e all.
          let clear = z.hits page (end + 32) (start + 32) (omega arith) (ground arith) in
          cc (
            all (raw - 32) (omega (arith, low)) (ground arith),
            ap page {x = raw - 32 + 32} {y = raw} (omega (arith, low)),
            clear,
          ))
  check_loaded-Says false bnode start end h =
      let data' = bnode_working_data bnode in
      let r = find_next_set_bit 32 bnode.wpage end start in
      let n = find_next_set_bit_lem 32 bnode.wpage end start h in
      by_test false data' start end (leb end r) (λ e j l k. n.clear j l (ground arith))
        (λ e all. elim n.hit [
          | inl set ↦ cc (all r n.low (ground arith), set)
          | inr at_end ↦ ground arith
        ])

pub Says-join :
    (v : Bool) (bits : Bits) (low mid high : ℕ) (test : Bool)
    → low ≤ mid
    → Run v bits low mid
    → Says v bits mid high test
    → Says v bits low high test
Says-join v bits low mid high true l first rest = Run-join v bits low mid high first rest
Says-join v bits low mid high false l first rest = λ all. rest (λ j k m. all j (omega arith) m)

pub Says-same :
    (v : Bool) (bits bits' : Bits) (low high : ℕ) (test : Bool)
    → ((b : ℕ) → bits b ≡ bits' b)
    → Says v bits low high test
    → Says v bits' low high test
Says-same v bits bits' low high true same run = λ j l k. sym (same j) ∙ run j l k
Says-same v bits bits' low high false same fails = λ all. fails (λ j l k. same j ∙ all j l k)

module _ (bits : ℕ) (some_bits : 0 < bits) (nodes : Nodes) (i : ℕ) where
  in_use-place : (j : ℕ) → j < bits → in_use bits nodes (i * bits + j) ≡ node_bits (nodes i) j
  in_use-place j h =
      ap (λ q. node_bits (nodes q) ((i * bits + j) % bits)) (div-place i j bits h)
      ∙ ap (node_bits (nodes i)) (mod-place i j bits h)

  pub Says-place :
      (v : Bool) (data' : Bits) (low high : ℕ) (test : Bool)
      → high ≤ bits
      → ((j : ℕ) → data' j ≡ node_bits (nodes i) j)
      → Says v data' low high test
      → Says v (in_use bits nodes) (i * bits + low) (i * bits + high) test
  Says-place v data' low high true h same run = λ b l k.
      let j = b - i * bits in
      ap (in_use bits nodes) {x = b} {y = i * bits + j} (omega arith)
      ∙ in_use-place j (omega arith)
      ∙ sym (same j)
      ∙ run j (omega arith) (omega arith)
  Says-place v data' low high false h same fails = λ all. fails (λ j l k.
      same j ∙ sym (in_use-place j (omega arith)) ∙ all (i * bits + j) (omega arith) (omega arith))

-- ===== src/Bitmap/Scan.antt =====
-- What the searches find.
use native.Mathlib.Decide.{dec_le}
use reiser.Base.{
  ℕ, zero, suc, ◌+◌, ◌-◌, ◌*◌, ◌/◌, ◌%◌, ◌≤◌, ◌<◌, ◌≡◌, refl, ap, ◌∙◌, Bool, true, false, not,
  if◌then◌else◌, if_cases, ◌⊎◌, inl, inr, ltb, ◌==◌, arith,
}
use reiser.Bitmap.Bits.{
  Bits, from_bit, word_at, complement, zero_in_word, find_next_zero_bit_in_word, nonzero,
  scan_words, next_set_bit, find_next_set_bit,
}

-- Every bit from `lo` up to `hi` has the value.
abbrev pub Run : Bool → Bits → ℕ → ℕ → Type 0
Run v bits lo hi = (j : ℕ) → lo ≤ j → j < hi → bits j ≡ v

pub Run-first :
    (v : Bool) (bits : Bits) (i hi : ℕ) → bits i ≡ v → Run v bits (i + 1) hi → Run v bits i hi
Run-first v bits i hi e run j l h = elim (dec_le (i + 1) j) [
  | yes p ↦ run j p h
  | no p ↦ ap bits {x = j} {y = i} (omega arith) ∙ e
]

pub Run-join :
    (v : Bool) (bits : Bits) (lo mid hi : ℕ)
    → Run v bits lo mid
    → Run v bits mid hi
    → Run v bits lo hi
Run-join v bits lo mid hi first second j l h = elim (dec_le mid j) [
  | yes p ↦ second j p h
  | no p ↦ first j l (omega arith)
]

-- What holds in a word holds at its place in memory.
pub Run-word :
    (v : Bool) (bits : Bits) (w i n : ℕ)
    → Run v (word_at bits w) i n
    → Run v bits (w * 64 + i) (w * 64 + n)
Run-word v bits w i n run j l h =
    ap bits {x = j} {y = j - w * 64 + 64 * w} (omega arith)
    ∙ run (j - w * 64) (omega arith) (omega arith)

pub not-true : (b : Bool) → not b ≡ true → b ≡ false
not-true b e = ground arith

not-false : (b : Bool) → not b ≡ false → b ≡ true
not-false b e = ground arith

pub Run-complement :
    (bits : Bits) (lo hi : ℕ) → Run true (complement bits) lo hi → Run false bits lo hi
Run-complement bits lo hi run j l h = not-true (bits j) (run j l h)

-- The first clear bit of a word from `i` on, or 64.
pub record IsNextZero (word : Bits) (i r : ℕ) : Type 0 where
  pub passed : Run true word i r
  pub stop : (word r ≡ false) ⊎ (r ≡ 64)
  pub low : i ≤ r
  pub high : r ≤ 64

zero_in_word-IsNextZero :
    (left : ℕ) (word : Bits) (i : ℕ) → i + left ≡ 64 → IsNextZero word i (zero_in_word left word i)
unfolding zero_in_word
zero_in_word-IsNextZero zero word i e = record {
  passed = λ j l h. absurd (omega arith);
  stop = inr (omega arith);
  low = omega arith;
  high = omega arith;
}
zero_in_word-IsNextZero (suc left) word i e =
    if_cases (IsNextZero word i) (word i)
      (λ set.
        let z = zero_in_word-IsNextZero left word (i + 1) (omega arith) in
        record {
          passed = Run-first true word i (zero_in_word left word (i + 1)) set z.passed;
          stop = z.stop;
          low = omega (arith, z.low);
          high = z.high;
        })
      (λ clear. record {
        passed = λ j l h. absurd (omega arith);
        stop = inl clear;
        low = omega arith;
        high = omega arith;
      })

pub find_next_zero_bit_in_word_lem :
    (word : Bits) (i : ℕ) → i < 64 → IsNextZero word i (find_next_zero_bit_in_word word i)
unfolding find_next_zero_bit_in_word
find_next_zero_bit_in_word_lem word i h = zero_in_word-IsNextZero (64 - i) word i (omega arith)

pub nonzero-false : (n : ℕ) (word : Bits) → nonzero n word ≡ false → Run false word 0 n
unfolding nonzero
nonzero-false zero word e j l h = absurd (omega arith)
nonzero-false (suc n) word e j l h = elim (dec_le n j) [
  | yes p ↦ ap word {x = j} {y = n} (omega arith) ∙ ground arith
  | no p ↦ nonzero-false n word (ground arith) j l (omega arith)
]

pub nonzero-true : (n : ℕ) (word : Bits) → nonzero n word ≡ true → ¬ Run false word 0 n
unfolding nonzero
nonzero-true zero word e run = cc
nonzero-true (suc n) word e run =
    ground (arith, run n (omega arith) (omega arith), nonzero-true n word)

-- A word that is not zero has its first set bit below 64.
first_in_word :
    (word : Bits)
    → nonzero 64 word ≡ true
    → Run false word 0 (find_next_zero_bit_in_word (complement word) 0)
      × (word (find_next_zero_bit_in_word (complement word) 0) ≡ true)
first_in_word word e =
    let z = find_next_zero_bit_in_word_lem (complement word) 0 (omega arith) in
    let r = find_next_zero_bit_in_word (complement word) 0 in
    let clear = Run-complement word 0 r z.passed in
    elim z.stop [
      | inl set ↦ (clear, not-false (word r) set)
      | inr e64 ↦ absurd (nonzero-true 64 word e (λ j l h. clear j l (omega arith)))
    ]

-- What a search from word `w` finds: `r` is a set bit, or `none_at`, and no bit before it is set.
record Scanned (bits : Bits) (none_at w r : ℕ) : Type 0 where
  clear : Run false bits (w * 64) r
  hit : (bits r ≡ true) ⊎ (r ≡ none_at)
  low : (w * 64 ≤ r) ⊎ (r ≡ none_at)

scan_words-Scanned :
    (left : ℕ) (bits : Bits) (max_offset w : ℕ)
    → max_offset ≤ 64 * (w + left)
    → Scanned bits max_offset w (scan_words left bits max_offset w)
unfolding scan_words
scan_words-Scanned zero bits max_offset w e = record {
  clear = λ j l h. absurd (omega arith);
  hit = inr refl;
  low = inr refl;
}
scan_words-Scanned (suc left) bits max_offset w e =
    if_cases (Scanned bits max_offset w) (nonzero 64 (word_at bits w))
      (λ some_bit.
        let (clear, set) = first_in_word (word_at bits w) some_bit in
        let r = find_next_zero_bit_in_word (complement (word_at bits w)) 0 in
        record {
          clear = λ j l h. Run-word false bits w 0 r clear j (omega arith) h;
          hit = inl (ap bits {x = w * 64 + r} {y = r + 64 * w} (omega arith) ∙ set);
          low = inl (omega arith);
        })
      (λ zero_word.
        let rest = scan_words-Scanned left bits max_offset (w + 1) (omega arith) in
        let r = scan_words left bits max_offset (w + 1) in
        let here = Run-word false bits w 0 64 (nonzero-false 64 (word_at bits w) zero_word) in
        record {
          clear =
              Run-join false bits (w * 64) ((w + 1) * 64) r
                (λ j l h. here j (omega arith) (omega arith)) rest.clear;
          hit = rest.hit;
          low = elim rest.low [ inl p ↦ inl (omega arith) | inr q ↦ inr q ];
        })

-- The first set bit from `start` on, or `none_at` where the search found none.
pub record IsNextSet (bits : Bits) (none_at start r : ℕ) : Type 0 where
  pub clear : Run false bits start r
  pub hit : (bits r ≡ true) ⊎ (r ≡ none_at)
  pub low : start ≤ r

-- A scan goes on where a part of a word is done.
resume_scan :
    (bits : Bits) (max_offset start w r : ℕ)
    → start < max_offset
    → start ≤ w * 64
    → Run false bits start (w * 64)
    → Scanned bits max_offset w r
    → IsNextSet bits max_offset start r
resume_scan bits max_offset start w r lt le before s = record {
  clear = Run-join false bits start (w * 64) r before s.clear;
  hit = s.hit;
  low = elim s.low [ inl p ↦ omega arith | inr q ↦ omega arith ];
}

-- The first word, where the search starts inside it, is searched apart.
from_inside :
    (bits : Bits) (max_offset start : ℕ)
    → start < max_offset
    → IsNextSet bits max_offset start (
        let nr = find_next_zero_bit_in_word (complement (word_at bits (start / 64))) (start % 64) in
        if ltb nr 64
        then start / 64 * 64 + nr
        else scan_words
            ((max_offset - 1) / 64 + 1 - (start / 64 + 1))
            bits
            max_offset
            (start / 64 + 1))
from_inside bits max_offset start lt =
    let w = start / 64 in
    let word = word_at bits w in
    let z = find_next_zero_bit_in_word_lem (complement word) (start % 64) (omega arith) in
    let nr = find_next_zero_bit_in_word (complement word) (start % 64) in
    let clear =
      Run-word false bits w (start % 64) nr (Run-complement word (start % 64) nr z.passed) in
    if_cases (IsNextSet bits max_offset start) (ltb nr 64)
      (λ inside. record {
        clear = λ j l h. clear j (omega arith) h;
        hit = inl (
            ap bits {x = w * 64 + nr} {y = nr + 64 * w} (omega arith)
            ∙ elim z.stop [ inl set ↦ not-false (word nr) set | inr e ↦ absurd (ground arith) ]);
        low = omega (arith, z.low);
      })
      (λ outside.
        let whole : nr ≡ 64 = ground (arith, z.high) in
        resume_scan bits max_offset start (w + 1)
          (scan_words ((max_offset - 1) / 64 + 1 - (w + 1)) bits max_offset (w + 1)) lt
          (omega arith) (λ j l h. clear j (omega arith) (omega arith))
          (scan_words-Scanned ((max_offset - 1) / 64 + 1 - (w + 1)) bits max_offset (w + 1)
            (omega arith)))

next_set_bit-IsNextSet :
    (bits : Bits) (max_offset start : ℕ)
    → start < max_offset
    → IsNextSet bits max_offset start (next_set_bit bits max_offset start)
unfolding next_set_bit
next_set_bit-IsNextSet bits max_offset start lt =
    if_cases (IsNextSet bits max_offset start) (start % 64 == 0)
      (λ aligned.
        let e : start % 64 ≡ 0 = ground arith in
        resume_scan bits max_offset start (start / 64)
          (scan_words ((max_offset - 1) / 64 + 1 - start / 64) bits max_offset (start / 64)) lt
          (omega arith) (λ j l h. absurd (omega arith))
          (scan_words-Scanned ((max_offset - 1) / 64 + 1 - start / 64) bits max_offset (start / 64)
            (omega arith)))
      (λ _. from_inside bits max_offset start lt)

-- reiser4_find_next_set_bit, for a start below the end, passes over no set bit of the array from its
-- start on, and what it answers is a set bit, or the end; a set bit that it answers may lie behind
-- the end.
pub find_next_set_bit_lem :
    (off : ℕ) (bits : Bits) (max_offset start : ℕ)
    → start < max_offset
    → IsNextSet (from_bit bits off) max_offset start (find_next_set_bit off bits max_offset start)
unfolding find_next_set_bit
find_next_set_bit_lem off bits max_offset start lt =
    let n = next_set_bit-IsNextSet bits (max_offset + off) (start + off) (omega arith) in
    let r = next_set_bit bits (max_offset + off) (start + off) in
    record {
      clear = λ j l h. n.clear (j + off) (omega arith) (omega arith);
      hit = elim n.hit [
        | inl set ↦ inl (ap bits {x = r - off + off} {y = r} (omega (arith, n.low)) ∙ set)
        | inr e ↦ inr (omega arith)
      ];
      low = omega (arith, n.low);
    }

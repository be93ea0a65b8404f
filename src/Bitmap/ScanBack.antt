-- ===== src/Bitmap/ScanBack.antt =====
-- What the backward searches find.
use native.Mathlib.Decide.{dec_le}
use reiser.Base.{
  ℕ, zero, suc, ◌+◌, ◌*◌, ◌/◌, ◌%◌, ◌≤◌, ◌<◌, ◌≡◌, ap, ◌∙◌, Bool, true, false, Option, none, some,
  if_cases, ltb, arith,
}
use reiser.Bitmap.Bits.{
  Bits, word_at, complement, nonzero, last_in_word, find_last_set_bit_in_word, scan_words_back,
  find_last_set_bit, find_last_zero_bit,
}
use reiser.Bitmap.Scan.{Run, Run-join, Run-word, nonzero-true, nonzero-false, not-true}

-- The last set bit of a word below `n`, or 64.
record IsLastIn (word : Bits) (n r : ℕ) : Type 0 where
  found : r < 64 → (word r ≡ true) × (r < n) × Run false word (r + 1) n
  missed : 64 ≤ r → Run false word 0 n

Run-last :
    (v : Bool) (bits : Bits) (lo n : ℕ) → bits n ≡ v → Run v bits lo n → Run v bits lo (suc n)
Run-last v bits lo n e run j l h = elim (dec_le n j) [
  | yes p ↦ ap bits {x = j} {y = n} (omega arith) ∙ e
  | no p ↦ run j l (omega arith)
]

last_in_word-IsLastIn : (word : Bits) (n : ℕ) → n ≤ 64 → IsLastIn word n (last_in_word word n)
unfolding last_in_word
last_in_word-IsLastIn word zero le = record {
  found = λ h. absurd (omega arith);
  missed = λ _ j l h. absurd (omega arith);
}
last_in_word-IsLastIn word (suc n) le =
    if_cases (IsLastIn word (suc n)) (word n)
      (λ set. record {
        found = λ h. (set, omega arith, λ j l k. absurd (omega arith));
        missed = λ h. absurd (omega arith);
      })
      (λ clear.
        let ih = last_in_word-IsLastIn word n (omega arith) in
        let r = last_in_word word n in
        record {
          found = λ h.
              let (set, below, run) = ih.found h in
              (set, omega arith, Run-last false word (r + 1) n clear run);
          missed = λ h. Run-last false word 0 n clear (ih.missed h);
        })

-- What a backward search over the words from `first` up to `n` finds.
abbrev ScannedBack : Bits → ℕ → ℕ → Option ℕ → Type 0
ScannedBack bits first n none = Run false bits (first * 64) (n * 64)
ScannedBack bits first n (some r) =
    (bits r ≡ true) × (first * 64 ≤ r) × (r < n * 64) × Run false bits (r + 1) (n * 64)

ScannedBack-suc :
    (bits : Bits) (first n : ℕ) (o : Option ℕ)
    → Run false bits (n * 64) (suc n * 64)
    → ScannedBack bits first n o
    → ScannedBack bits first (suc n) o
ScannedBack-suc bits first n none run s =
    Run-join false bits (first * 64) (n * 64) (suc n * 64) s run
ScannedBack-suc bits first n (some r) run (set, low, high, clear) =
    (set, low, omega arith, Run-join false bits (r + 1) (n * 64) (suc n * 64) clear run)

find_last_set_bit_in_word-IsLastIn :
    (word : Bits) → IsLastIn word 64 (find_last_set_bit_in_word word 63)
unfolding find_last_set_bit_in_word
find_last_set_bit_in_word-IsLastIn word = last_in_word-IsLastIn word 64 (omega arith)

last_below : (word : Bits) → nonzero 64 word ≡ true → find_last_set_bit_in_word word 63 < 64
unfolding find_last_set_bit_in_word
last_below word e = elim (dec_le 64 (last_in_word word 64)) [
  | yes p ↦ absurd (nonzero-true 64 word e ((last_in_word-IsLastIn word 64 (omega arith)).missed p))
  | no p ↦ omega arith
]

-- The word at `n`, if it is not zero.
found_back :
    (bits : Bits) (first n : ℕ)
    → first ≤ n
    → nonzero 64 (word_at bits n) ≡ true
    → ScannedBack bits first (suc n) (some (n * 64 + find_last_set_bit_in_word (word_at bits n) 63))
found_back bits first n le e =
    let word = word_at bits n in
    let r = find_last_set_bit_in_word word 63 in
    let below = last_below word e in
    let (set, _, run) = (find_last_set_bit_in_word-IsLastIn word).found below in
    let clear = Run-word false bits n (r + 1) 64 run in
    (
      ap bits {x = n * 64 + r} {y = r + 64 * n} (omega arith) ∙ set,
      omega arith,
      omega arith,
      λ j l h. clear j (omega arith) (omega arith),
    )

clear_word :
    (bits : Bits) (n : ℕ)
    → nonzero 64 (word_at bits n) ≡ false
    → Run false bits (n * 64) (suc n * 64)
clear_word bits n e j l h =
    Run-word false bits n 0 64 (nonzero-false 64 (word_at bits n) e) j (omega arith) (omega arith)

scan_words_back-ScannedBack :
    (bits : Bits) (first n : ℕ) → ScannedBack bits first n (scan_words_back bits first n)
unfolding scan_words_back
scan_words_back-ScannedBack bits first zero = λ j l h. absurd (omega arith)
scan_words_back-ScannedBack bits first (suc n) =
    let ih = scan_words_back-ScannedBack bits first n in
    if_cases (ScannedBack bits first (suc n)) (ltb n first) (λ done j l h. absurd (ground arith))
      (λ more.
        if_cases (ScannedBack bits first (suc n)) (nonzero 64 (word_at bits n))
          (found_back bits first n (ground arith))
          (λ e.
            ScannedBack-suc bits first n (scan_words_back bits first n) (clear_word bits n e) ih))

-- `r` is the last set bit up to `high`; where there is none, no bit from `low` on is set.
abbrev pub LastSet : Bits → ℕ → ℕ → Option ℕ → Type 0
LastSet bits low high none = Run false bits low (high + 1)
LastSet bits low high (some r) = (bits r ≡ true) × (r ≤ high) × Run false bits (r + 1) (high + 1)

LastSet-join :
    (bits : Bits) (low high n : ℕ) (o : Option ℕ)
    → n * 64 ≤ high
    → Run false bits (n * 64) (high + 1)
    → ScannedBack bits (low / 64) n o
    → LastSet bits low high o
LastSet-join bits low high n none le run s =
    λ j l h. Run-join false bits (low / 64 * 64) (n * 64) (high + 1) s run j (omega arith) h
LastSet-join bits low high n (some r) le run (set, from, below, clear) =
    (set, omega arith, Run-join false bits (r + 1) (n * 64) (high + 1) clear run)

-- reiser4_find_last_set_bit answers the last set bit up to `high`, both ends included, and -1 only
-- where no bit from `low` to `high` is set; a bit that it answers may lie before `low`.
pub find_last_set_bit_lem :
    (bits : Bits) (low high : ℕ) → LastSet bits low high (find_last_set_bit bits low high)
unfolding find_last_set_bit find_last_set_bit_in_word
find_last_set_bit_lem bits low high =
    let n = high / 64 in
    let word = word_at bits n in
    let r = last_in_word word (high % 64 + 1) in
    let last = last_in_word-IsLastIn word (high % 64 + 1) (omega arith) in
    if_cases (LastSet bits low high) (ltb r 64)
      (λ inside.
        let (set, below, run) = last.found (ground arith) in
        let clear = Run-word false bits n (r + 1) (high % 64 + 1) run in
        (
          ap bits {x = n * 64 + r} {y = r + 64 * n} (omega arith) ∙ set,
          omega arith,
          λ j l h. clear j (omega arith) (omega arith),
        ))
      (λ outside.
        let here = Run-word false bits n 0 (high % 64 + 1) (last.missed (ground arith)) in
        LastSet-join bits low high n (scan_words_back bits (low / 64) n) (omega arith)
          (λ j l h. here j (omega arith) (omega arith))
          (scan_words_back-ScannedBack bits (low / 64) n))

-- The last clear bit, in the same way.
abbrev pub LastZero : Bits → ℕ → ℕ → Option ℕ → Type 0
LastZero bits low high none = Run true bits low (high + 1)
LastZero bits low high (some r) = (bits r ≡ false) × (r ≤ high) × Run true bits (r + 1) (high + 1)

complemented : (bits : Bits) (lo hi : ℕ) → Run false (complement bits) lo hi → Run true bits lo hi
complemented bits lo hi run j l h = ground (arith, run j l h)

LastZero-complement :
    (bits : Bits) (low high : ℕ) (o : Option ℕ)
    → LastSet (complement bits) low high o
    → LastZero bits low high o
LastZero-complement bits low high none run = complemented bits low (high + 1) run
LastZero-complement bits low high (some r) (clear, le, run) =
    (not-true (bits r) clear, le, complemented bits (r + 1) (high + 1) run)

-- reiser4_find_last_zero_bit answers the last clear bit up to `high`, both ends included, and -1
-- only where every bit from `low` to `high` is set; a bit that it answers may lie before `low`.
pub find_last_zero_bit_lem :
    (bits : Bits) (low high : ℕ) → LastZero bits low high (find_last_zero_bit bits low high)
unfolding find_last_zero_bit
find_last_zero_bit_lem bits low high =
    LastZero-complement bits low high (find_last_set_bit (complement bits) low high)
      (find_last_set_bit_lem (complement bits) low high)

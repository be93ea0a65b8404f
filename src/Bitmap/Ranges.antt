-- ===== src/Bitmap/Ranges.antt =====
-- What setting and clearing a range of bits does to each bit.
use Prim.Native.Nat.{bit_and, bit_or}
use reiser.Base.{
  ℕ, zero, suc, ◌+◌, ◌-◌, ◌*◌, ◌/◌, ◌%◌, ◌^◌, ◌<◌, ◌≡◌, refl, Bool, true, false, ◌&&◌, ◌||◌, not,
  if◌then◌else◌, ltb, leb, ◌==◌, Bool-cases, inl, inr, arith,
}
use reiser.Bitmap.Bits.{Bits}
use reiser.Bitmap.Masks.{mask_bit, or_byte, and_byte, fill_between, set_bits, clear_bits}

-- Tables over the positions in a byte.
all_below : ℕ → (ℕ → Bool) → Bool
all_below zero p = true
all_below (suc n) p = p n && all_below n p

all_below_lem : (n : ℕ) (p : ℕ → Bool) (x : ℕ) → all_below n p ≡ true → x < n → p x ≡ true
unfolding all_below
all_below_lem zero p x e h = absurd (omega arith)
all_below_lem (suc n) p x e h = ground (arith, all_below_lem n p x)

abbrev agree : Bool → Bool → Bool
agree a b = if a then b else not b

agree_lem : (a b : Bool) → agree a b ≡ true → a ≡ b
agree_lem a b e = ground arith

abbrev pair_table : (ℕ → ℕ → Bool) → Bool
pair_table p = all_below 8 (λ s. all_below 8 (p s))

pair_table_lem : (p : ℕ → ℕ → Bool) (s k : ℕ) → pair_table p ≡ true → s < 8 → k < 8 → p s k ≡ true
pair_table_lem p s k e hs hk =
    all_below_lem 8 (p s) k (all_below_lem 8 (λ s. all_below 8 (p s)) s e hs) hk

abbrev triple_table : (ℕ → ℕ → ℕ → Bool) → Bool
triple_table p = all_below 8 (λ s. pair_table (p s))

triple_table_lem :
    (p : ℕ → ℕ → ℕ → Bool) (s e k : ℕ)
    → triple_table p ≡ true
    → s < 8
    → e < 8
    → k < 8
    → p s e k ≡ true
triple_table_lem p s e k t hs he hk =
    pair_table_lem (p s) e k (all_below_lem 8 (λ s. pair_table (p s)) s t hs) he hk

-- The four masks, and the two combined ones, bit by bit.
module _ (k : ℕ) (hk : k < 8) where
  set_first : (s : ℕ) → s < 8 → mask_bit (0xFF * 2 ^ s % 256) k ≡ leb s k
  unfolding all_below mask_bit
  set_first s hs =
      agree_lem _ _
        (pair_table_lem (λ s k. agree (mask_bit (0xFF * 2 ^ s % 256) k) (leb s k)) s k refl hs hk)

  set_last : (e : ℕ) → e < 8 → mask_bit (0xFF / 2 ^ (7 - e)) k ≡ leb k e
  unfolding all_below mask_bit
  set_last e he =
      agree_lem _ _
        (pair_table_lem (λ e k. agree (mask_bit (0xFF / 2 ^ (7 - e)) k) (leb k e)) e k refl he hk)

  set_both :
      (s e : ℕ)
      → s < 8
      → e < 8
      → mask_bit (bit_and (0xFF * 2 ^ s % 256) (0xFF / 2 ^ (7 - e))) k ≡ (leb s k && leb k e)
  unfolding all_below mask_bit
  set_both s e hs he = agree_lem _ _ (
      triple_table_lem
        (λ s e k.
          agree (mask_bit (bit_and (0xFF * 2 ^ s % 256) (0xFF / 2 ^ (7 - e))) k)
            (leb s k && leb k e))
        s e k refl hs he hk)

  clear_first : (s : ℕ) → s < 8 → mask_bit (0xFF / 2 ^ (8 - s)) k ≡ ltb k s
  unfolding all_below mask_bit
  clear_first s hs =
      agree_lem _ _
        (pair_table_lem (λ s k. agree (mask_bit (0xFF / 2 ^ (8 - s)) k) (ltb k s)) s k refl hs hk)

  clear_last : (e : ℕ) → e < 8 → mask_bit (0xFF * 2 ^ (e + 1) % 256) k ≡ ltb e k
  unfolding all_below mask_bit
  clear_last e he = agree_lem _ _ (
      pair_table_lem (λ e k. agree (mask_bit (0xFF * 2 ^ (e + 1) % 256) k) (ltb e k)) e k refl he
        hk)

  clear_both :
      (s e : ℕ)
      → s < 8
      → e < 8
      → mask_bit (bit_or (0xFF / 2 ^ (8 - s)) (0xFF * 2 ^ (e + 1) % 256)) k ≡ (ltb k s || ltb e k)
  unfolding all_below mask_bit
  clear_both s e hs he = agree_lem _ _ (
      triple_table_lem
        (λ s e k.
          agree (mask_bit (bit_or (0xFF / 2 ^ (8 - s)) (0xFF * 2 ^ (e + 1) % 256)) k)
            (ltb k s || ltb e k))
        s e k refl hs he hk)

-- A byte of the range, for any masks that are right bit by bit.
module _ (bits : Bits) (start end : ℕ) (h : start < end) (j m n b : ℕ) where
  set_core :
      mask_bit m (j % 8) ≡ leb (start % 8) (j % 8)
      → mask_bit n (j % 8) ≡ leb (j % 8) ((end - 1) % 8)
      → mask_bit b (j % 8) ≡ (leb (start % 8) (j % 8) && leb (j % 8) ((end - 1) % 8))
      → (let filled = fill_between bits (start / 8) ((end - 1) / 8) true in
            if start / 8 == (end - 1) / 8
            then or_byte filled (start / 8) b
            else or_byte (or_byte filled (start / 8) m) ((end - 1) / 8) n)
          j
        ≡ ((leb start j && ltb j end) || bits j)
  set_core p q r = ground arith

  clear_core :
      mask_bit m (j % 8) ≡ ltb (j % 8) (start % 8)
      → mask_bit n (j % 8) ≡ ltb ((end - 1) % 8) (j % 8)
      → mask_bit b (j % 8) ≡ (ltb (j % 8) (start % 8) || ltb ((end - 1) % 8) (j % 8))
      → (let filled = fill_between bits (start / 8) ((end - 1) / 8) false in
            if start / 8 == (end - 1) / 8
            then and_byte filled (start / 8) b
            else and_byte (and_byte filled (start / 8) m) ((end - 1) / 8) n)
          j
        ≡ (not (leb start j && ltb j end) && bits j)
  clear_core p q r = elim (Bool-cases (start / 8 == (end - 1) / 8)) [
    | inl one ↦ rw one (ground arith)
    | inr many ↦ rw many (ground arith)
  ]

module _ (bits : Bits) (start end : ℕ) (h : start < end) (j : ℕ) where
  -- reiser4_set_bits sets every bit from `start` up to `end`, and leaves every other bit as it is.
  pub set_bits_lem : set_bits bits start end j ≡ ((leb start j && ltb j end) || bits j)
  unfolding set_bits
  set_bits_lem =
      set_core bits start end h j _ _ _ (set_first (j % 8) (omega arith) (start % 8) (omega arith))
        (set_last (j % 8) (omega arith) ((end - 1) % 8) (omega arith))
        (set_both (j % 8) (omega arith) (start % 8) ((end - 1) % 8) (omega arith) (omega arith))

  -- reiser4_clear_bits clears every bit from `start` up to `end`, and leaves every other bit as it
  -- is.
  pub clear_bits_lem : clear_bits bits start end j ≡ (not (leb start j && ltb j end) && bits j)
  unfolding clear_bits
  clear_bits_lem =
      clear_core bits start end h j _ _ _
        (clear_first (j % 8) (omega arith) (start % 8) (omega arith))
        (clear_last (j % 8) (omega arith) ((end - 1) % 8) (omega arith))
        (clear_both (j % 8) (omega arith) (start % 8) ((end - 1) % 8) (omega arith) (omega arith))

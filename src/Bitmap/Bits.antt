-- ===== src/Bitmap/Bits.antt =====
-- The searches for a bit. Memory is its bits: bit j of byte i is bit 8 * i + j, and, since the
-- machine is little-endian and a `long` has 64 bits, bit j of word i is bit 64 * i + j.
use reiser.Base.{
  ℕ, zero, suc, ◌+◌, ◌-◌, ◌*◌, ◌/◌, ◌%◌, Bool, false, ◌||◌, not, Option, none, some, if◌then◌else◌,
  ltb, ◌==◌,
}

abbrev pub Bits : Type 0
Bits = ℕ → Bool

-- The bits from a later address on.
abbrev pub from_bit : Bits → ℕ → Bits
from_bit bits n j = bits (j + n)

abbrev pub word_at : Bits → ℕ → Bits
word_at bits w = from_bit bits (64 * w)

-- `~word`
abbrev pub complement : Bits → Bits
complement bits j = not (bits j)

-- The loop of find_next_zero_bit_in_word at bit `i`, with the bits that are left.
unfoldable pub zero_in_word : ℕ → Bits → ℕ → ℕ
zero_in_word zero word i = i
zero_in_word (suc left) word i =
    let rest = zero_in_word left word (i + 1) in if word i then rest else i

unfoldable pub find_next_zero_bit_in_word : Bits → ℕ → ℕ
unfolding zero_in_word
find_next_zero_bit_in_word word start_bit = zero_in_word (64 - start_bit) word start_bit

-- `word != 0`, for the lowest `n` bits
unfoldable pub nonzero : ℕ → Bits → Bool
nonzero zero word = false
nonzero (suc n) word = word n || nonzero n word

-- The fast scan through aligned words, with the words that are left.
unfoldable pub scan_words : ℕ → Bits → ℕ → ℕ → ℕ
unfolding nonzero find_next_zero_bit_in_word
scan_words zero bits max_offset word_nr = max_offset
scan_words (suc left) bits max_offset word_nr =
    let rest = scan_words left bits max_offset (word_nr + 1) in
    if nonzero 64 (word_at bits word_nr)
    then word_nr * 64 + find_next_zero_bit_in_word (complement (word_at bits word_nr)) 0
    else rest

-- `__reiser4_find_next_set_bit`, for `max_offset != 0`
unfoldable pub next_set_bit : Bits → ℕ → ℕ → ℕ
unfolding find_next_zero_bit_in_word scan_words
next_set_bit bits max_offset start_offset =
    let word_nr = start_offset / 64 in
    let bit_nr = start_offset % 64 in
    let words = (max_offset - 1) / 64 + 1 in
    let nr = find_next_zero_bit_in_word (complement (word_at bits word_nr)) bit_nr in
    if bit_nr == 0
    then scan_words (words - word_nr) bits max_offset word_nr
    else if ltb nr 64
    then word_nr * 64 + nr
    else scan_words (words - (word_nr + 1)) bits max_offset (word_nr + 1)

-- `bits` starts at the aligned address BASE(addr), and `off` is OFF(addr).
unfoldable pub find_next_set_bit : ℕ → Bits → ℕ → ℕ → ℕ
unfolding next_set_bit
find_next_set_bit off bits max_offset start_offset =
    next_set_bit bits (max_offset + off) (start_offset + off) - off

-- The loop of find_last_set_bit_in_word, at bit `nr - 1`.
unfoldable pub last_in_word : Bits → ℕ → ℕ
last_in_word word zero = 64
last_in_word word (suc nr) = let rest = last_in_word word nr in if word nr then nr else rest

unfoldable pub find_last_set_bit_in_word : Bits → ℕ → ℕ
unfolding last_in_word
find_last_set_bit_in_word word start_bit = last_in_word word (start_bit + 1)

-- `while (last_word >= first_word)`, at word `n - 1`
unfoldable pub scan_words_back : Bits → ℕ → ℕ → Option ℕ
unfolding nonzero find_last_set_bit_in_word
scan_words_back bits first_word zero = none
scan_words_back bits first_word (suc n) =
    let rest = scan_words_back bits first_word n in
    if ltb n first_word
    then none
    else if nonzero 64 (word_at bits n)
    then some (n * 64 + find_last_set_bit_in_word (word_at bits n) 63)
    else rest

-- `none` is the -1 of the function. Its words start at `addr`, aligned or not.
unfoldable pub find_last_set_bit : Bits → ℕ → ℕ → Option ℕ
unfolding find_last_set_bit_in_word scan_words_back
find_last_set_bit bits low_off high_off =
    let last_word = high_off / 64 in
    let nr = find_last_set_bit_in_word (word_at bits last_word) (high_off % 64) in
    if ltb nr 64 then some (last_word * 64 + nr) else scan_words_back bits (low_off / 64) last_word

-- The same code as that of reiser4_find_last_set_bit, with each word complemented.
unfoldable pub find_last_zero_bit : Bits → ℕ → ℕ → Option ℕ
unfolding find_last_set_bit
find_last_zero_bit bits low_off high_off = find_last_set_bit (complement bits) low_off high_off

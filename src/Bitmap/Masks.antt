-- ===== src/Bitmap/Masks.antt =====
-- reiser4_set_bits and reiser4_clear_bits: masks for the first and the last byte, and memset between.
use Prim.Native.Nat.{bit_and, bit_or}
use reiser.Base.{
  ℕ, ◌+◌, ◌-◌, ◌*◌, ◌/◌, ◌%◌, ◌^◌, Bool, true, false, ◌&&◌, ◌||◌, if◌then◌else◌, ltb, ◌==◌,
}
use reiser.Bitmap.Bits.{Bits}

-- bit `k` of a byte
unfoldable pub mask_bit : ℕ → ℕ → Bool
mask_bit mask k = mask / 2 ^ k % 2 == 1

-- `addr[byte] |= mask`
abbrev pub or_byte : Bits → ℕ → ℕ → Bits
or_byte bits byte mask j = if j / 8 == byte then bits j || mask_bit mask (j % 8) else bits j

-- `addr[byte] &= mask`
abbrev pub and_byte : Bits → ℕ → ℕ → Bits
and_byte bits byte mask j = if j / 8 == byte then bits j && mask_bit mask (j % 8) else bits j

-- The memset of the bytes between the first and the last; `value` stands for each bit.
abbrev pub fill_between : Bits → ℕ → ℕ → Bool → Bits
fill_between bits first_byte last_byte value =
    if ltb (first_byte + 1) last_byte
    then (λ j. if ltb first_byte (j / 8) && ltb (j / 8) last_byte then value else bits j)
    else bits

unfoldable pub set_bits : Bits → ℕ → ℕ → Bits
set_bits bits start end =
    let first_byte = start / 8 in
    let last_byte = (end - 1) / 8 in
    let first_byte_mask = 0xFF * 2 ^ (start % 8) % 256 in
    let last_byte_mask = 0xFF / 2 ^ (7 - (end - 1) % 8) in
    let filled = fill_between bits first_byte last_byte true in
    if first_byte == last_byte
    then or_byte filled first_byte (bit_and first_byte_mask last_byte_mask)
    else or_byte (or_byte filled first_byte first_byte_mask) last_byte last_byte_mask

unfoldable pub clear_bits : Bits → ℕ → ℕ → Bits
clear_bits bits start end =
    let first_byte = start / 8 in
    let last_byte = (end - 1) / 8 in
    let first_byte_mask = 0xFF / 2 ^ (8 - start % 8) in
    let last_byte_mask = 0xFF * 2 ^ ((end - 1) % 8 + 1) % 256 in
    let filled = fill_between bits first_byte last_byte false in
    if first_byte == last_byte
    then and_byte filled first_byte (bit_or first_byte_mask last_byte_mask)
    else and_byte (and_byte filled first_byte first_byte_mask) last_byte last_byte_mask

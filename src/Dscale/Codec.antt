-- ===== src/Dscale/Codec.antt =====
-- dscale.c: a number below 2^64 in 1, 2, 4 or 9 bytes, the width in the two highest bits of the first
-- byte. Memory at an address is the list of its bytes. A big endian conversion and the bit operations
-- are written out as arithmetic.
use reiser.Base.{
  ℕ, zero, suc, ◌+◌, ◌-◌, ◌*◌, ◌/◌, ◌%◌, ◌^◌, Bool, Option, none, some, List, [], ◌∷◌, ◌++◌,
  if◌then◌else◌, ltb, leb, ◌==◌, length,
}

-- `n` bytes of a number, the highest first
abbrev pub be_bytes : ℕ → ℕ → List ℕ
be_bytes zero v = []
be_bytes (suc n) v = be_bytes n (v / 256) ++ v % 256 ∷ []

abbrev pub be_number : ℕ → List ℕ → ℕ
be_number high [] = high
be_number high (b ∷ bs) = be_number (high * 256 + b) bs

abbrev pub drop : ℕ → List ℕ → List ℕ
drop zero bs = bs
drop (suc n) [] = []
drop (suc n) (b ∷ bs) = drop n bs

abbrev pub take : ℕ → List ℕ → List ℕ
take zero bs = []
take (suc n) [] = []
take (suc n) (b ∷ bs) = b ∷ take n bs

-- memcpy of bytes to an address
abbrev copy_to : List ℕ → List ℕ → List ℕ
copy_to bytes memory = bytes ++ drop (length bytes) memory

abbrev pub copy_behind : ℕ → List ℕ → List ℕ → List ℕ
copy_behind zero bytes memory = copy_to bytes memory
copy_behind (suc shift) bytes [] = copy_to bytes []
copy_behind (suc shift) bytes (b ∷ memory) = b ∷ copy_behind shift bytes memory

abbrev pub max : ℕ → ℕ → ℕ
max a b = if leb a b then b else a

-- `b | (tag << 6)` on a byte, for a tag of two bits
abbrev pub or_tag : ℕ → ℕ → ℕ
or_tag tag b = max (b / 128) (tag / 2) * 128 + max (b / 64 % 2) (tag % 2) * 64 + b % 64

abbrev pub or_first : ℕ → List ℕ → List ℕ
or_first tag [] = []
or_first tag (b ∷ bs) = or_tag tag b ∷ bs

unfoldable pub gettag : List ℕ → ℕ
gettag [] = 0
gettag (b ∷ bs) = b / 64

-- Clears two bits of the value, those at 8 * 2 ^ tag - 2.
unfoldable pub cleartag : ℕ → ℕ → ℕ
cleartag value tag = let bit = 2 ^ (2 ^ tag * 8 - 2) in value - value / bit % 4 * bit

unfoldable pub dscale_range : ℕ → ℕ
dscale_range value =
    if ltb 0x3fffffff value
    then 3
    else if ltb 0x3fff value
    then 2
    else if ltb 0x3f value
    then 1
    else 0

-- The value and the number of bytes consumed; `none` is -EIO.
unfoldable pub dscale_read : List ℕ → Option (ℕ × ℕ)
unfolding gettag cleartag
dscale_read address =
    let tag = gettag address in
    if tag == 3
    then some (be_number 0 (take 8 (drop 1 address)), 9)
    else if tag == 0
    then some (cleartag (be_number 0 (take 1 address)) 0, 1)
    else if tag == 1
    then some (cleartag (be_number 0 (take 2 address)) 1, 2)
    else if tag == 2
    then some (cleartag (be_number 0 (take 4 address)) 2, 4)
    else none

unfoldable pub dscale_bytes_to_read : List ℕ → Option ℕ
unfolding gettag
dscale_bytes_to_read address =
    let tag = gettag address in
    if ltb tag 3 then some (2 ^ tag) else if tag == 3 then some 9 else none

-- The memory after the call, and the number of bytes consumed.
unfoldable pub dscale_write : List ℕ → ℕ → List ℕ × ℕ
unfolding dscale_range
dscale_write address value =
    let tag = dscale_range value in
    let shift = if tag == 3 then 1 else 0 in
    (
      or_first tag (copy_behind shift (drop (8 - 2 ^ tag) (be_bytes 8 value)) address),
      shift + 2 ^ tag,
    )

unfoldable pub dscale_bytes_to_write : ℕ → ℕ
unfolding dscale_range
dscale_bytes_to_write value =
    let bytes = 2 ^ dscale_range value in if bytes == 8 then bytes + 1 else bytes

unfoldable pub dscale_fit : ℕ → ℕ → Bool
unfolding dscale_range
dscale_fit value other = dscale_range value == dscale_range other

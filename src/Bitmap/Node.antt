-- ===== src/Bitmap/Node.antt =====
-- One bitmap block: `struct bitmap_node`, its checksum, loading it, and the search in it.
-- Offsets are `__u32` and lengths `int`: an offset is below the number of bits of a block and a
-- length below 2^31, so that no sum of them wraps.
use reiser.Base.{
  ℕ, zero, suc, ◌+◌, ◌-◌, ◌*◌, Bool, true, false, Option, none, some, List, [], ◌∷◌, if◌then◌else◌,
  ltb, leb, ◌==◌,
}
use reiser.Space.Grab.{Errno, eio, einval, Status, success, failed}
use reiser.Bitmap.Bits.{Bits, from_bit, find_next_set_bit}
use reiser.Bitmap.Masks.{set_bits}
use reiser.Bitmap.Checksum.{adler32}

-- The two blocks are whole: the data stands behind the checksum. That of the COMMIT bitmap is what
-- the disk holds, also before it is loaded.
pub record Bnode : Type 0 where
  pub wpage : Bits
  pub cpage : Bits
  pub first_zero_bit : ℕ
  pub loaded : Bool

-- CHECKSUM_SIZE in bits, which is also OFF of the data of a block
abbrev pub checksum_bits : ℕ
checksum_bits = 32

abbrev pub bnode_working_data : Bnode → Bits
bnode_working_data bnode = from_bit bnode.wpage checksum_bits

abbrev pub bnode_commit_data : Bnode → Bits
bnode_commit_data bnode = from_bit bnode.cpage checksum_bits

-- a block with other data
unfoldable pub with_data : Bits → Bits → Bits
with_data page bits j = if ltb j checksum_bits then page j else bits (j - checksum_bits)

-- The number in the lowest `n` bits.
unfoldable pub number : ℕ → Bits → ℕ
number zero bits = 0
number (suc n) bits = (if bits 0 then 1 else 0) + 2 * number n (from_bit bits 1)

unfoldable pub bytes : ℕ → Bits → List ℕ
unfolding number
bytes zero bits = []
bytes (suc n) bits = number 8 bits ∷ bytes n (from_bit bits 8)

unfoldable pub bnode_commit_crc : Bnode → ℕ
unfolding number
bnode_commit_crc bnode = number checksum_bits bnode.cpage

-- bmap_size is the size of the block less that of the checksum.
unfoldable pub bnode_calc_crc : Bnode → ℕ → ℕ
unfolding bytes adler32
bnode_calc_crc bnode size = adler32 (bytes (size - 4) (bnode_commit_data bnode))

unfoldable pub bnode_check_adler32 : Bnode → ℕ → Status
unfolding bnode_calc_crc bnode_commit_crc
bnode_check_adler32 bnode size =
    if bnode_calc_crc bnode size == bnode_commit_crc bnode then success else failed eio

-- The checksum must fit, and the first bit must be set.
unfoldable pub check_struct_bnode : Bnode → ℕ → Status
unfolding bnode_check_adler32
check_struct_bnode bnode blksize = elim (bnode_check_adler32 bnode blksize) [
  | failed e ↦ failed e
  | success ↦ if bnode_commit_data bnode 0 then success else failed einval
]

unfoldable pub adjust_first_zero_bit : Bnode → ℕ → Bnode
adjust_first_zero_bit bnode offset =
    if ltb offset bnode.first_zero_bit then record bnode { first_zero_bit = offset } else bnode

unfoldable pub limit : ℕ → ℕ → ℕ
limit val boundary = if ltb boundary val then boundary else val

-- What the searches return as an `int`: 0, a length, or a negated error.
pub data Len : Type 0 where
  nothing : Len
  found : ℕ → Len
  error : Errno → Len

-- The working bitmap is a copy of the COMMIT bitmap when it is loaded.
unfoldable pub loaded_bnode : Bnode → Bnode
unfolding with_data
loaded_bnode bnode = record bnode {
  loaded = true;
  wpage = with_data bnode.wpage (bnode_commit_data bnode);
}

-- `prepared` is the answer of prepare_bnode, which gets memory and reads the block. The call is one
-- step: another task that loads the node at the same time is before it or after it.
unfoldable pub load_and_lock_bnode : ℕ → Status → Bnode → Status × Bnode
unfolding check_struct_bnode loaded_bnode
load_and_lock_bnode blocksize prepared bnode =
    if bnode.loaded then (success, bnode) else elim prepared [
      | failed e ↦ (failed e, bnode)
      | success ↦ elim (check_struct_bnode bnode blocksize) [
        | failed e ↦ (failed e, bnode)
        | success ↦ (success, loaded_bnode bnode)
      ]
    ]

unfoldable pub take_bits : Bnode → ℕ → ℕ → Bnode
unfolding set_bits with_data
take_bits bnode start end = record bnode {
  wpage = with_data bnode.wpage (set_bits (bnode_working_data bnode) start end);
}

-- The node, the offset and the answer, from how the loop ended.
abbrev pub answer : ℕ → Bnode × Option (ℕ × ℕ) → Bnode × ℕ × Len
answer offset (bnode, none) = (bnode, offset, nothing)
answer offset (bnode, some (start, end)) = (bnode, start, found (end - start))

-- `find_next_zero_bit_le` is the kernel's: the bits, the size, and the offset to start from.
module _ (find_next_zero_bit_le : Bits → ℕ → ℕ → ℕ) where
  unfoldable pub find_next_zero_bit : ℕ → Bits → ℕ → ℕ → ℕ
  find_next_zero_bit off bits maxoffset offset =
      find_next_zero_bit_le bits (maxoffset + off) (offset + off) - off

  -- The loop, which ends with the node and, if one was found, the start and the end of a region. Each
  -- round moves `start` on, so that `max_offset` is fuel enough.
  unfoldable pub forward_loop : ℕ → Bnode → ℕ → Bool → ℕ → ℕ → ℕ → Bnode × Option (ℕ × ℕ)
  unfolding find_next_zero_bit find_next_set_bit limit take_bits
  forward_loop zero bnode start set_first_zero_bit max_offset min_len max_len = (bnode, none)
  forward_loop (suc fuel) bnode start set_first_zero_bit max_offset min_len max_len =
      let start' = find_next_zero_bit checksum_bits bnode.wpage max_offset start in
      let bnode' = record bnode {
        first_zero_bit = if set_first_zero_bit then start' else bnode.first_zero_bit;
      } in
      let search_end = limit (start' + max_len) max_offset in
      let end = find_next_set_bit checksum_bits bnode.wpage search_end start' in
      let end' = limit end search_end in
      let rest = forward_loop fuel bnode' (end + 1) false max_offset min_len max_len in
      if ltb (start + min_len) max_offset
      then (if leb max_offset start'
          then (bnode', none)
          else if leb (start' + min_len) end
          then (take_bits bnode' start' end', some (start', end'))
          else rest)
      else (bnode, none)

  unfoldable pub search_loaded_forward : Bnode → ℕ → ℕ → ℕ → ℕ → Bnode × ℕ × Len
  unfolding forward_loop
  search_loaded_forward bnode offset max_offset min_len max_len =
      let skip = leb offset bnode.first_zero_bit in
      answer offset (
        forward_loop max_offset bnode (if skip then bnode.first_zero_bit else offset) skip
          max_offset min_len max_len)

  unfoldable pub search_one_bitmap_forward : ℕ → Status → Bnode → ℕ → ℕ → ℕ → ℕ → Bnode × ℕ × Len
  unfolding load_and_lock_bnode search_loaded_forward
  search_one_bitmap_forward blocksize prepared bnode offset max_offset min_len max_len =
      let (ret, bnode') = load_and_lock_bnode blocksize prepared bnode in
      elim ret [
        | failed e ↦ (bnode', offset, error e)
        | success ↦ search_loaded_forward bnode' offset max_offset min_len max_len
      ]

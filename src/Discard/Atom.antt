-- ===== src/Discard/Atom.antt =====
-- discard.c: the freed blocks of an atom are handed to the device when it commits. The device
-- (blkdev_issue_discard) is a parameter, and so is what other tasks do to the delete set of the atom
-- (`meanwhile`): its lock is free from the splice to the end of the call.
use reiser.Base.{ℕ, ◌*◌, ◌%◌, ◌/◌, ◌^◌, Bool, true, false, List, [], ◌∷◌, if◌then◌else◌, ◌==◌, ℤ}
use reiser.Discard.Extents.{Extent, blocknr_list_merge, sort_and_join, blocknr_list_iterator}

-- what the super block says: the option REISER4_DISCARD, and the size of a block in bytes
pub record Options : Type 0 where
  pub discard : Bool
  pub blocksize : ℕ

pub data Status : Type 0 where
  success repeat : Status
  failed : ℕ → Status

-- `sector_t` has 64 bits, `sec_per_blk` is an `int`.
unfoldable pub discard_extent {ℓ} :
    {S : Type ℓ} → Options → (S → (start len : ℕ) → ℕ × S) → S → (start len : ℕ) → ℕ × S
discard_extent options issue device start len =
    let sec_per_blk = options.blocksize / 512 in
    issue device (start * sec_per_blk % 2 ^ 64) (len * sec_per_blk % 2 ^ 64)

-- The delete set of the atom, the set of what has been handed over, and the device.
pub record State {ℓ} (S : Type ℓ) : Type ℓ where
  pub delete_set : List Extent
  pub processed_set : List Extent
  pub device : S

abbrev pub is_empty : List Extent → Bool
is_empty [] = true
is_empty (e ∷ es) = false

unfoldable pub discard_atom {ℓ} :
    {S : Type ℓ}
    → ((Extent → Extent → ℤ) → List Extent → List Extent)
    → Options
    → (S → (start len : ℕ) → ℕ × S)
    → (meanwhile : List Extent → List Extent) → State S
    → Status × State S
unfolding blocknr_list_merge sort_and_join blocknr_list_iterator discard_extent
discard_atom {S = S} list_sort options issue meanwhile s =
    let (left, discard_set) = blocknr_list_merge s.delete_set [] in
    let sorted = sort_and_join list_sort discard_set in
    let (ret, device, discarded) =
      blocknr_list_iterator (discard_extent options issue) false sorted s.device in
    let s' : State S = record {
      delete_set = meanwhile left;
      processed_set = (blocknr_list_merge discarded s.processed_set).1;
      device = device;
    } in
    if options.discard
    then (if is_empty s.delete_set
        then (success, s)
        else if ret == 0
        then (repeat, s')
        else (failed ret, s'))
    else (success, s)

unfoldable pub discard_atom_post {ℓ} : {S : Type ℓ} → Options → State S → State S
unfolding blocknr_list_merge
discard_atom_post options s =
    let (left, merged) = blocknr_list_merge s.processed_set s.delete_set in
    if options.discard then record s { processed_set = left; delete_set = merged } else s

-- ===== src/BlocknrSet/Entry.antt =====
-- `struct blocknr_set_entry` and the `bse_*` functions.
use reiser.Base.{
  ℕ, zero, suc, ◌+◌, ◌-◌, ◌*◌, Option, none, some, List, [], ◌∷◌, ◌++◌, get_or, set, sub32,
}

-- (128 - 2 * sizeof(unsigned) - sizeof(struct list_head)) / sizeof(reiser4_block_nr), at 64 bits
abbrev pub entries_number : ℕ
entries_number = 13

pub record Bse : Type 0 where
  pub nr_singles : ℕ
  pub nr_pairs : ℕ
  pub entries : List ℕ

unfoldable pub bse_avail : Bse → ℕ
bse_avail bse = sub32 entries_number (bse.nr_singles + 2 * bse.nr_pairs)

-- `memory` is the array that kmem_cache_alloc gives, with whatever it holds.
unfoldable pub bse_init : List ℕ → Bse
bse_init memory = record { nr_singles = 0; nr_pairs = 0; entries = memory }

unfoldable pub bse_alloc : Option (List ℕ) → Option Bse
unfolding bse_init
bse_alloc none = none
bse_alloc (some memory) = some (bse_init memory)

unfoldable pub bse_put_single : Bse → ℕ → Bse
bse_put_single bse block = record bse {
  entries = set bse.entries bse.nr_singles block;
  nr_singles = bse.nr_singles + 1;
}

-- where the pair numbered `pno` starts in the array
abbrev pub pair_index : ℕ → ℕ
pair_index pno = entries_number - 2 * (pno + 1)

unfoldable pub bse_get_pair : Bse → ℕ → ℕ × ℕ
bse_get_pair bse pno =
    (get_or bse.entries (pair_index pno) 0, get_or bse.entries (pair_index pno + 1) 0)

unfoldable pub bse_put_pair : Bse → ℕ → ℕ → Bse
bse_put_pair bse a b = record bse {
  entries = set (set bse.entries (pair_index bse.nr_pairs) a) (pair_index bse.nr_pairs + 1) b;
  nr_pairs = bse.nr_pairs + 1;
}

-- What an entry holds: an item is a block number, and a second one where it is a pair.
abbrev pub Item : Type 0
Item = ℕ × Option ℕ

-- `count` singles, from the `i`-th on
unfoldable pub singles : List ℕ → ℕ → ℕ → List Item
singles entries i zero = []
singles entries i (suc count) = (get_or entries i 0, none) ∷ singles entries (i + 1) count

abbrev pub pair_item : List ℕ → ℕ → Item
pair_item entries i = (get_or entries (pair_index i) 0, some (get_or entries (pair_index i + 1) 0))

-- `count` pairs, from the `i`-th on
unfoldable pub pairs : List ℕ → ℕ → ℕ → List Item
pairs entries i zero = []
pairs entries i (suc count) = pair_item entries i ∷ pairs entries (i + 1) count

unfoldable pub items : Bse → List Item
items bse = singles bse.entries 0 bse.nr_singles ++ pairs bse.entries 0 bse.nr_pairs

-- What a set holds, in the order in which it is gone through.
unfoldable pub set_items : List Bse → List Item
set_items [] = []
set_items (bse ∷ rest) = items bse ++ set_items rest

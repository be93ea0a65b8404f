-- ===== src/BlocknrSet/Ops.antt =====
-- The functions of blocknrset.c on a whole set. A set is the list of its entries, first entry first.
use reiser.Base.{
  ℕ, zero, suc, ◌+◌, ◌-◌, Bool, true, not, ◌&&◌, Option, none, some, List, get_or, [], ◌∷◌, ◌++◌,
  if◌then◌else◌, ltb, ◌==◌,
}
use reiser.BlocknrSet.Entry.{
  Bse, bse_avail, bse_alloc, bse_put_single, bse_get_pair, bse_put_pair, entries_number, pair_index,
}

-- What `blocknr_set_add` returns: 0, -E_REPEAT or -ENOMEM.
pub data Answer : Type 0 where
  added repeat no_memory : Answer

pub record Added : Type 0 where
  pub answer : Answer
  pub bset : List Bse
  pub new_bse : Option Bse

abbrev pub entries_needed : Option ℕ → ℕ
entries_needed none = 1
entries_needed (some b) = 2

unfoldable pub bse_put : Bse → ℕ → Option ℕ → Bse
unfolding bse_put_single bse_put_pair
bse_put bse a none = bse_put_single bse a
bse_put bse a (some b) = bse_put_pair bse a b

unfoldable pub lacks_room : List Bse → ℕ → Bool
unfolding bse_avail
lacks_room [] needed = true
lacks_room (bse ∷ rest) needed = ltb (bse_avail bse) needed

-- `Add the single or pair`, to the first entry; an entry that was not used is freed.
unfoldable pub put_first : List Bse → ℕ → Option ℕ → Added
unfolding bse_put
put_first [] a b = record { answer = added; bset = []; new_bse = none }
put_first (bse ∷ rest) a b = record {
  answer = added;
  bset = bse_put bse a b ∷ rest;
  new_bse = none;
}

-- `memory` is the answer of the allocator, if it is asked.
unfoldable pub add_without_room : Option (List ℕ) → List Bse → Option Bse → ℕ → Option ℕ → Added
unfolding bse_alloc put_first
add_without_room none bset none a b = record { answer = no_memory; bset = bset; new_bse = none }
add_without_room (some memory) bset none a b = record {
  answer = repeat;
  bset = bset;
  new_bse = bse_alloc (some memory);
}
add_without_room memory bset (some fresh) a b = put_first (fresh ∷ bset) a b

unfoldable pub blocknr_set_add : Option (List ℕ) → List Bse → Option Bse → ℕ → Option ℕ → Added
unfolding lacks_room add_without_room put_first
blocknr_set_add memory bset new_bse a b =
    if lacks_room bset (entries_needed b)
    then add_without_room memory bset new_bse a b
    else put_first bset a b

unfoldable pub blocknr_set_add_extent : Option (List ℕ) → List Bse → Option Bse → ℕ → ℕ → Added
unfolding blocknr_set_add
blocknr_set_add_extent memory bset new_bse start len =
    blocknr_set_add memory bset new_bse start (if len == 1 then none else some len)

unfoldable pub blocknr_set_add_pair : Option (List ℕ) → List Bse → Option Bse → ℕ → ℕ → Added
unfolding blocknr_set_add
blocknr_set_add_pair memory bset new_bse a b = blocknr_set_add memory bset new_bse a (some b)

-- `while (ret == -E_REPEAT)`
abbrev pub while_repeat : Answer → Option Added → Added → Option Added
while_repeat repeat again r = again
while_repeat added again r = some r
while_repeat no_memory again r = some r

-- The loop round the call: `do … while (ret == -E_REPEAT)`. `none` if the fuel runs out. Between two
-- rounds the lock of the atom is free, and `meanwhile` is what other tasks do to the set.
unfoldable pub add_loop :
    ℕ
    → (meanwhile : List Bse → List Bse) → Option (List ℕ)
    → List Bse
    → Option Bse
    → ℕ
    → Option ℕ
    → Option Added
unfolding blocknr_set_add
add_loop zero meanwhile memory bset new_bse a b = none
add_loop (suc fuel) meanwhile memory bset new_bse a b =
    let r = blocknr_set_add memory bset new_bse a b in
    let again = add_loop fuel meanwhile memory (meanwhile r.bset) r.new_bse a b in
    while_repeat r.answer again r

unfoldable pub blocknr_set_init : List Bse
blocknr_set_init = []

unfoldable pub blocknr_set_destroy : List Bse → List Bse
blocknr_set_destroy [] = []
blocknr_set_destroy (bse ∷ rest) = blocknr_set_destroy rest

-- The loop that moves singles to `into` while it has room; the room that is left comes first.
unfoldable pub combine_singles : ℕ → Bse → Bse → ℕ × Bse × Bse
unfolding bse_put_single
combine_singles zero into from = (0, into, from)
combine_singles (suc into_avail) into from =
    let last = from.nr_singles - 1 in
    let rest =
      combine_singles into_avail (bse_put_single into (get_or from.entries last 0))
        (record from { nr_singles = last }) in
    if from.nr_singles == 0 then (suc into_avail, into, from) else rest

-- The loop that moves pairs to `into` while it has room for two.
unfoldable pub combine_pairs : ℕ → Bse → Bse → Bse × Bse
unfolding bse_get_pair bse_put_pair
combine_pairs zero into from = (into, from)
combine_pairs (suc zero) into from = (into, from)
combine_pairs (suc (suc into_avail)) into from =
    let last = from.nr_pairs - 1 in
    let rest =
      combine_pairs into_avail
        (bse_put_pair into (bse_get_pair from last).0 (bse_get_pair from last).1)
        (record from { nr_pairs = last }) in
    if from.nr_pairs == 0 then (into, from) else rest

unfoldable pub combine : Bse → Bse → Bse × Bse
unfolding bse_avail combine_singles combine_pairs
combine into from =
    let (into_avail, into', from') = combine_singles (bse_avail into) into from in
    combine_pairs into_avail into' from'

-- What is left of both sets: `from`, then `into`.
unfoldable pub blocknr_set_merge : List Bse → List Bse → List Bse × List Bse
unfolding combine bse_avail
blocknr_set_merge [] into = ([], into)
blocknr_set_merge (f ∷ from) [] = ([], f ∷ from)
blocknr_set_merge (f ∷ from) (i ∷ into) =
    let (i', f') = combine i f in
    if bse_avail f' == entries_number
    then ([], i' ∷ (into ++ from))
    else ([], f' ∷ i' ∷ (into ++ from))

-- `actor` returns its `int` and the data that it works on.
module _ {ℓ} {D : Type ℓ} (actor : D → ℕ → Option ℕ → ℕ × D) (delete : Bool) where
  -- an actor's error stops the iteration, unless the set is deleted
  abbrev pub stops : ℕ → Bool
  stops ret = not (ret == 0) && not delete

  unfoldable pub iterate_singles : List ℕ → ℕ → ℕ → D → ℕ × D
  iterate_singles entries i zero d = (0, d)
  iterate_singles entries i (suc left) d =
      let (ret, d') = actor d (get_or entries i 0) none in
      let rest = iterate_singles entries (i + 1) left d' in if stops ret then (ret, d') else rest

  unfoldable pub iterate_pairs : List ℕ → ℕ → ℕ → D → ℕ × D
  iterate_pairs entries i zero d = (0, d)
  iterate_pairs entries i (suc left) d =
      let (ret, d') =
        actor d (get_or entries (pair_index i) 0) (some (get_or entries (pair_index i + 1) 0)) in
      let rest = iterate_pairs entries (i + 1) left d' in if stops ret then (ret, d') else rest

  unfoldable pub iterate_entry : Bse → D → ℕ × D
  iterate_entry entry d =
      let (ret, d') = iterate_singles entry.entries 0 entry.nr_singles d in
      if ret == 0 then iterate_pairs entry.entries 0 entry.nr_pairs d' else (ret, d')

  unfoldable pub iterate_entries : List Bse → D → ℕ × D
  iterate_entries [] d = (0, d)
  iterate_entries (entry ∷ rest) d =
      let (ret, d') = iterate_entry entry d in
      let onward = iterate_entries rest d' in if ret == 0 then onward else (ret, d')

  -- The answer, the data, and what is left of the set.
  unfoldable pub blocknr_set_iterator : List Bse → D → ℕ × D × List Bse
  blocknr_set_iterator bset d =
      let (ret, d') = iterate_entries bset d in (ret, d', if delete then [] else bset)

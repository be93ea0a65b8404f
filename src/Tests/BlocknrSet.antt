-- ===== src/Tests/BlocknrSet.antt =====
-- blocknrset.c on entries of 13 slots.
use reiser.Base.{
  ℕ, ◌+◌, true, false, if◌then◌else◌, ◌==◌, ◌≡◌, refl, Option, none, some, List, [], ◌∷◌, arith,
}
use reiser.BlocknrSet.Entry.{Bse, items, set_items, singles, pairs}
use reiser.BlocknrSet.Iterate.{blocknr_set_iterator_lem}
use reiser.BlocknrSet.Ops.{blocknr_set_iterator, blocknr_set_add, blocknr_set_merge}
use reiser.BlocknrSet.Add.{IsBlocknrSet, AddResult, blocknr_set_add_lem}
use reiser.BlocknrSet.Merge.{MergeResult, blocknr_set_merge_lem}

abbrev zeros : List ℕ
zeros = 0 ∷ 0 ∷ 0 ∷ 0 ∷ 0 ∷ 0 ∷ 0 ∷ 0 ∷ 0 ∷ 0 ∷ 0 ∷ 0 ∷ 0 ∷ []

-- one single, 70, and one pair, 80 and 4
abbrev mixed : Bse
mixed = record {
  nr_singles = 1;
  nr_pairs = 1;
  entries = 70 ∷ 0 ∷ 0 ∷ 0 ∷ 0 ∷ 0 ∷ 0 ∷ 0 ∷ 0 ∷ 0 ∷ 0 ∷ 80 ∷ 4 ∷ [];
}

-- twelve singles, and one slot left
abbrev crowded : Bse
crowded = record {
  nr_singles = 12;
  nr_pairs = 0;
  entries = 1 ∷ 2 ∷ 3 ∷ 4 ∷ 5 ∷ 6 ∷ 7 ∷ 8 ∷ 9 ∷ 10 ∷ 11 ∷ 12 ∷ 0 ∷ [];
}

mixed-IsBlocknrSet : IsBlocknrSet (mixed ∷ [])
mixed-IsBlocknrSet = omega arith

crowded-IsBlocknrSet : IsBlocknrSet (crowded ∷ [])
crowded-IsBlocknrSet = omega arith

items_of_mixed : items mixed ≡ (70, none) ∷ (80, some 4) ∷ []
unfolding items singles pairs
items_of_mixed = refl

blocknr_set_add_lem_example :
    AddResult (mixed ∷ []) (90, some 3) none (blocknr_set_add none (mixed ∷ []) none 90 (some 3))
blocknr_set_add_lem_example =
    blocknr_set_add_lem 90 (some 3) none (mixed ∷ []) none tt mixed-IsBlocknrSet tt

-- Another task adds an entry while the atom is not locked.
abbrev meanwhile : List Bse → List Bse
meanwhile bset = mixed ∷ bset

blocknr_set_merge_lem_example :
    MergeResult (mixed ∷ []) (crowded ∷ []) (blocknr_set_merge (mixed ∷ []) (crowded ∷ []))
blocknr_set_merge_lem_example =
    blocknr_set_merge_lem (mixed ∷ []) (crowded ∷ []) mixed-IsBlocknrSet crowded-IsBlocknrSet

-- Adds up the blocks freed; a pair is an extent. Block 80 is refused with 5.
abbrev count_freed : ℕ → ℕ → Option ℕ → ℕ × ℕ
count_freed total a none = (0, total + 1)
count_freed total a (some len) = if a == 80 then (5, total) else (0, total + len)

blocknr_set_iterator_lem_example :
    (blocknr_set_iterator count_freed true (mixed ∷ crowded ∷ []) 0 ≡ (0, 13, []))
    × (blocknr_set_iterator count_freed false (mixed ∷ crowded ∷ []) 0
        ≡ (5, 1, mixed ∷ crowded ∷ []))
unfolding set_items items singles pairs
blocknr_set_iterator_lem_example = blocknr_set_iterator_lem count_freed (mixed ∷ crowded ∷ []) 0

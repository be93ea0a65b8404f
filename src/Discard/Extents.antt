-- ===== src/Discard/Extents.antt =====
-- blocknrlist.c: lists of extents [start, start + len). The kernel's list_sort is a parameter, and so is
-- whether the slab cache has memory for an entry.
use reiser.Base.{
  ℕ, Bool, true, false, Option, none, some, List, [], ◌∷◌, ◌++◌, if◌then◌else◌, ltb, leb, ◌==◌,
  add64, sub64, ℤ, pos, negsuc,
}

pub record Extent : Type 0 where
  pub start : ℕ
  pub len : ℕ

abbrev pub end_of : Extent → ℕ
end_of e = add64 e.start e.len

-- `none` is the answer -1.
unfoldable pub entry_merge : Extent → (start len : ℕ) → Option Extent
entry_merge to start len =
    let end = add64 start len in
    let to_end = end_of to in
    let to_start = if ltb start to.start then start else to.start in
    let joined : Extent = record {
      start = to_start;
      len = sub64 (if ltb to_end end then end else to_end) to_start;
    } in
    if leb to.start end then (if leb start to_end then some joined else none) else none

unfoldable pub entry_merge_entry : Extent → Extent → Option Extent
unfolding entry_merge
entry_merge_entry to from = entry_merge to from.start from.len

unfoldable pub entry_compare : Extent → Extent → ℤ
entry_compare a b =
    if ltb a.start b.start
    then negsuc 0
    else if ltb b.start a.start
    then pos 1
    else if ltb (end_of b) (end_of a)
    then negsuc 0
    else if ltb (end_of a) (end_of b)
    then pos 1
    else pos 0

-- `list_splice_tail_init` empties the list it takes from: the first component is `from`.
unfoldable pub blocknr_list_merge : (from to : List Extent) → List Extent × List Extent
blocknr_list_merge from to = ([], to ++ from)

-- Step 2 of blocknr_list_sort_and_join, at `entry`.
unfoldable pub join_from : Extent → List Extent → List Extent
unfolding entry_merge_entry
join_from entry [] = entry ∷ []
join_from entry (next ∷ rest) = elim (entry_merge_entry entry next) [
  | some joined ↦ join_from joined rest
  | none ↦ entry ∷ join_from next rest
]

unfoldable pub join_sorted : List Extent → List Extent
unfolding join_from
join_sorted [] = []
join_sorted (entry ∷ rest) = join_from entry rest

unfoldable pub sort_and_join :
    ((Extent → Extent → ℤ) → List Extent → List Extent) → List Extent → List Extent
unfolding join_sorted entry_compare
sort_and_join list_sort blist = join_sorted (list_sort entry_compare blist)

-- What a call of blocknr_list_add_extent leaves: its answer, the list, and *new_entry.
pub data Added : Type 0 where
  done repeat no_memory : Added

abbrev pub merge_last : List Extent → (start len : ℕ) → Option (List Extent)
merge_last [] start len = none
merge_last (e ∷ []) start len = elim (entry_merge e start len) [
  | some e' ↦ some (e' ∷ [])
  | none ↦ none
]
merge_last (e ∷ f ∷ es) start len = elim (merge_last (f ∷ es) start len) [
  | some es' ↦ some (e ∷ es')
  | none ↦ none
]

-- `new_entry` says whether the caller has an entry already; the lock of the atom is free at `repeat`.
unfoldable pub add_extent :
    (memory new_entry : Bool) → List Extent → (start len : ℕ) → Added × List Extent × Bool
unfolding entry_merge
add_extent memory true blist start len =
    (done, blist ++ record { start = start; len = len } ∷ [], true)
add_extent memory false blist start len = elim (merge_last blist start len) [
  | some blist' ↦ (done, blist', false)
  | none ↦ if memory then (repeat, blist, true) else (no_memory, blist, false)
]

-- The actor takes its data and gives them back; 0 is success. With `delete` the list is emptied, and an
-- error only ends the calls of the actor.
unfoldable pub iterate {ℓ} : {S : Type ℓ} → (S → (start len : ℕ) → ℕ × S) → List Extent → S → ℕ × S
iterate actor [] seen = (0, seen)
iterate actor (e ∷ es) seen =
    let (ret, seen') = actor seen e.start e.len in
    let rest = iterate actor es seen' in if ret == 0 then rest else (ret, seen')

unfoldable pub blocknr_list_iterator {ℓ} :
    {S : Type ℓ}
    → (S → (start len : ℕ) → ℕ × S)
    → (delete : Bool) → List Extent
    → S
    → ℕ × S × List Extent
unfolding iterate
blocknr_list_iterator actor delete blist seen =
    let (ret, seen') = iterate actor blist seen in (ret, seen', if delete then [] else blist)

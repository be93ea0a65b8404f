-- ===== src/Tests/Discard.antt =====
-- blocknrlist.c and discard.c with an insertion sort for list_sort, on a device of 100 blocks of 4096
-- bytes.
use mathlib.Core.List.{perm_append_singleton}
use reiser.Base.{ℕ, true, false, ◌≡◌, refl, List, [], ◌∷◌, ℤ, arith}
use reiser.Discard.Extents.{Extent, entry_compare, sort_and_join, done, repeat, add_extent}
use reiser.Discard.Atom.{Options, State, discard_atom}
use reiser.Discard.Joined.{Joined, not_after, sort_and_join_lem}
use reiser.Discard.Adding.{AddResult, add_extent_lem}
use reiser.Discard.Commit.{Discarded, logging, discard_atom_lem}

abbrev extent : ℕ → ℕ → Extent
extent start len = record { start = start; len = len }

abbrev insert : (Extent → Extent → ℤ) → Extent → List Extent → List Extent
insert cmp e [] = e ∷ []
insert cmp e (f ∷ fs) = elim (not_after (cmp e f)) [
  | true ↦ e ∷ f ∷ fs
  | false ↦ f ∷ insert cmp e fs
]

abbrev insertion_sort : (Extent → Extent → ℤ) → List Extent → List Extent
insertion_sort cmp [] = []
insertion_sort cmp (e ∷ es) = insert cmp e (insertion_sort cmp es)

abbrev freed : List Extent
freed = extent 8 2 ∷ extent 3 2 ∷ extent 5 1 ∷ []

abbrev options : Options
options = record { discard = true; blocksize = 4096 }

abbrev state : State (List (ℕ × ℕ))
state = record { delete_set = freed; processed_set = extent 40 1 ∷ []; device = [] }

joined_freed : sort_and_join insertion_sort freed ≡ extent 3 3 ∷ extent 8 2 ∷ []
unfolding sort_and_join
joined_freed = refl

-- Another task frees block 90 while the device is told of the others.
abbrev meanwhile : List Extent → List Extent
meanwhile es = extent 90 1 ∷ es

told_sectors :
    (discard_atom insertion_sort options (logging (λ s l. 0)) meanwhile state).1.device
    ≡ (64, 16) ∷ (24, 24) ∷ []
unfolding discard_atom
told_sectors = refl

sort_and_join_lem_example : Joined freed (sort_and_join insertion_sort freed) 0
unfolding entry_compare
sort_and_join_lem_example =
    sort_and_join_lem insertion_sort freed
      (perm_append_singleton (extent 8 2) (extent 3 2 ∷ extent 5 1 ∷ [])) refl refl

discard_atom_lem_example :
    Discarded
      (λ s l. 0)
      meanwhile
      8
      state
      (discard_atom insertion_sort options (logging (λ s l. 0)) meanwhile state)
unfolding entry_compare
discard_atom_lem_example =
    discard_atom_lem insertion_sort options (λ s l. 0) meanwhile 100 state refl (omega arith)
      (omega arith) refl refl (λ b c. ground (arith, c))
      (perm_append_singleton (extent 8 2) (extent 3 2 ∷ extent 5 1 ∷ [])) refl

-- The extent 10 to 12 joins the last one of this list, and 20 to 21 needs an entry.
joined_last :
    (add_extent true false (extent 3 2 ∷ extent 8 2 ∷ []) 10 2
      ≡ (done, extent 3 2 ∷ extent 8 4 ∷ [], false))
    × (add_extent true false (extent 3 2 ∷ []) 20 1 ≡ (repeat, extent 3 2 ∷ [], true))
unfolding add_extent
joined_last = (refl, refl)

add_extent_lem_example : AddResult true (extent 10 2) freed (add_extent true false freed 10 2)
add_extent_lem_example = add_extent_lem true false freed (extent 10 2) refl refl

-- ===== src/Discard/Adding.antt =====
-- blocknr_list_add_extent: a new extent is joined to the last one, or gets an entry of its own.
use reiser.Base.{
  ℕ, ◌≡◌, refl, Bool, true, false, ◌||◌, Option, none, some, List, [], ◌∷◌, if◌then◌else◌, if_cases,
  arith,
}
use reiser.Discard.Extents.{
  Extent, entry_merge, entry_merge_entry, Added, done, repeat, no_memory, merge_last, add_extent,
}
use reiser.Discard.Cover.{
  fits, all_fit, covers, covered, covered-append, all_fit-append, MergeResult,
  entry_merge_entry_lem,
}

-- The list has the blocks of the old one and of the extent.
abbrev Grown : Extent → (blist new : List Extent) → Type 0
Grown e blist new =
    (all_fit new ≡ true) × ((b : ℕ) → covered b new ≡ (covered b blist || covers b e))

-- What each answer says. With the entry that `repeat` leaves, the next call is done.
abbrev pub AddResult : Bool → Extent → List Extent → Added × List Extent × Bool → Type 0
AddResult memory e blist (done, new, entry) = Grown e blist new
AddResult memory e blist (repeat, new, entry) = (new ≡ blist) × (entry ≡ true) × (memory ≡ true)
AddResult memory e blist (no_memory, new, entry) = (new ≡ blist) × (memory ≡ false)

abbrev LastResult : Extent → List Extent → Option (List Extent) → Type 0
LastResult e blist none = Unit
LastResult e blist (some new) = Grown e blist new

merge_last_lem :
    (e : Extent) (blist : List Extent)
    → fits e ≡ true
    → all_fit blist ≡ true
    → LastResult e blist (merge_last blist e.start e.len)
unfolding entry_merge entry_merge_entry
merge_last_lem e [] f g = tt
merge_last_lem e (d ∷ []) f g =
    elim (entry_merge d e.start e.len)
        as (λ (x : Option Extent).
          MergeResult d e x
          → LastResult e (d ∷ [])
              (elim x as (λ y. Option (List Extent)) [ some d' ↦ some (d' ∷ []) | none ↦ none ])) [
                | some d' ↦ λ m. (ground (arith, m.fit), λ b. ground (arith, m.same b))
                | none ↦ λ m. tt
              ]
      (entry_merge_entry_lem d e (ground (arith, g)) f)
merge_last_lem e (d ∷ c ∷ es) f g =
    elim (merge_last (c ∷ es) e.start e.len)
        as (λ (x : Option (List Extent)).
          LastResult e (c ∷ es) x
          → LastResult e (d ∷ c ∷ es)
              (elim x as (λ y. Option (List Extent)) [ some es' ↦ some (d ∷ es') | none ↦ none ])) [
                | some es' ↦ λ m. (ground (arith, m.0, g), λ b. ground (arith, m.1 b))
                | none ↦ λ m. tt
              ]
      (merge_last_lem e (c ∷ es) f (ground (arith, g)))

-- For an extent and a list of extents that are not empty and end below 2^64, a call of
-- blocknr_list_add_extent that is done leaves a list of the same kind with the blocks of the old list
-- and those of the extent and no others; a call that asks for a repeat hands out an entry, without which
-- none asks for one; a call fails only for want of memory; and both leave the list as it was.
pub add_extent_lem :
    (memory new_entry : Bool) (blist : List Extent) (e : Extent)
    → fits e ≡ true
    → all_fit blist ≡ true
    → AddResult memory e blist (add_extent memory new_entry blist e.start e.len)
unfolding add_extent
add_extent_lem memory true blist e f g = (
  all_fit-append blist (e ∷ []) g (ground (arith, f)),
  λ b. ground (arith, covered-append b blist (e ∷ [])),
)
add_extent_lem memory false blist e f g =
    elim (merge_last blist e.start e.len)
        as (λ (x : Option (List Extent)).
          LastResult e blist x
          → AddResult memory e blist (elim x as (λ y. Added × List Extent × Bool) [
            | some blist' ↦ (done, blist', false)
            | none ↦ if memory then (repeat, blist, true) else (no_memory, blist, false)
          ])) [
            | some blist' ↦ λ m. m
            | none ↦ λ m.
                if_cases (AddResult memory e blist) memory (λ h. (refl, refl, h)) (λ h. (refl, h))
          ]
      (merge_last_lem e blist f g)

-- ===== src/BlocknrSet/Add.antt =====
-- Adding to a set: what it holds afterwards, and that the loop round the call ends.
use mathlib.Core.List.{Perm}
use mathlib.Core.List.Perm
use mathlib.Core.Path.{subst}
use reiser.Base.{
  ℕ, ◌+◌, ◌*◌, ◌≤◌, ◌≡◌, refl, ap, false, Option, none, some, List, [], ◌∷◌, ◌++◌, length, if_cases,
  ◌⊎◌, arith,
}
use reiser.BlocknrSet.Entry.{
  Bse, bse_avail, bse_init, entries_number, Item, singles, pairs, items, set_items,
}
use reiser.BlocknrSet.Ops.{
  Answer, added, repeat, no_memory, Added, entries_needed, bse_put, lacks_room, put_first,
  add_without_room, blocknr_set_add,
}
use reiser.BlocknrSet.Contents.{
  IsBse, bse_put_single-IsBse, bse_put_pair-IsBse, items-put_single, items-put_pair,
}

abbrev pub IsBlocknrSet : List Bse → Type 0
IsBlocknrSet [] = Unit
IsBlocknrSet (bse ∷ rest) = IsBse bse × IsBlocknrSet rest

-- An entry that was allocated and not yet used.
pub record IsFresh (bse : Bse) : Type 0 where
  pub no_singles : bse.nr_singles ≡ 0
  pub no_pairs : bse.nr_pairs ≡ 0
  pub array : length bse.entries ≡ entries_number

abbrev pub FreshOrNone : Option Bse → Type 0
FreshOrNone none = Unit
FreshOrNone (some bse) = IsFresh bse

-- The allocator gives memory of the size of an entry, if it gives any.
abbrev pub Sized : Option (List ℕ) → Type 0
Sized none = Unit
Sized (some memory) = length memory ≡ entries_number

pub bse_avail-used :
    (bse : Bse) → IsBse bse → bse_avail bse + (bse.nr_singles + 2 * bse.nr_pairs) ≡ entries_number
unfolding bse_avail
bse_avail-used bse v = omega (arith, v.room)

bse_put_lem :
    (bse : Bse) (a : ℕ) (b : Option ℕ)
    → IsBse bse
    → entries_needed b ≤ bse_avail bse
    → IsBse (bse_put bse a b) × Perm (items (bse_put bse a b)) ((a, b) ∷ items bse)
unfolding bse_put
bse_put_lem bse a none v h =
    let room = bse_avail-used bse v in
    (bse_put_single-IsBse bse v a (omega arith), items-put_single bse v a (omega arith))
bse_put_lem bse a (some b) v h =
    let room = bse_avail-used bse v in
    (bse_put_pair-IsBse bse v a b (omega arith), items-put_pair bse v a b (omega arith))

-- What an addition of `item` to `bset` leaves, for each answer.
pub record IsAdded (bset : List Bse) (item : Item) (r : Added) : Type 0 where
  pub holds : Perm (set_items r.bset) (item ∷ set_items bset)
  pub valid : IsBlocknrSet r.bset
  pub used_up : r.new_bse ≡ none

abbrev pub AddResultAt : List Bse → Item → Option (List ℕ) → Answer → Added → Type 0
AddResultAt bset item memory added r = IsAdded bset item r
AddResultAt bset item memory repeat r =
    (r.bset ≡ bset) × ((fresh : Bse) × (r.new_bse ≡ some fresh) × IsFresh fresh)
AddResultAt bset item memory no_memory r = (r.bset ≡ bset) × (memory ≡ none)

abbrev pub AddResult : List Bse → Item → Option (List ℕ) → Added → Type 0
AddResult bset item memory r = AddResultAt bset item memory r.answer r

put_first_lem :
    (bse : Bse) (rest : List Bse) (a : ℕ) (b : Option ℕ)
    → IsBse bse
    → IsBlocknrSet rest
    → entries_needed b ≤ bse_avail bse
    → IsAdded (bse ∷ rest) (a, b) (put_first (bse ∷ rest) a b)
unfolding put_first set_items
put_first_lem bse rest a b v w h =
    let put = bse_put_lem bse a b v h in
    record { holds = Perm.append_right (set_items rest) put.1; valid = (put.0, w); used_up = refl }

fresh_room :
    (bse : Bse) (b : Option ℕ) → IsFresh bse → IsBse bse × (entries_needed b ≤ bse_avail bse)
unfolding bse_avail
fresh_room bse none f = ground arith
fresh_room bse (some b) f = ground arith

items-fresh : (bse : Bse) → IsFresh bse → items bse ≡ []
unfolding items singles pairs
items-fresh bse f = rw (f.no_singles, f.no_pairs)

-- A fresh entry at the front adds nothing to what the set holds.
put_fresh :
    (fresh : Bse) (bset : List Bse) (a : ℕ) (b : Option ℕ)
    → IsFresh fresh
    → IsBlocknrSet bset
    → IsAdded bset (a, b) (put_first (fresh ∷ bset) a b)
put_fresh fresh bset a b f w =
    let room = fresh_room fresh b f in
    let put = put_first_lem fresh bset a b room.0 w room.1 in
    record {
      holds =
          subst (λ l. Perm (set_items (put_first (fresh ∷ bset) a b).bset) ((a, b) ∷ l))
            (set_items-fresh fresh bset f) put.holds;
      valid = put.valid;
      used_up = put.used_up;
    }
  where
    set_items-fresh :
        (fresh : Bse) (bset : List Bse) → IsFresh fresh → set_items (fresh ∷ bset) ≡ set_items bset
    set_items-fresh fresh bset f =
        unfold set_items in (ap (λ l. l ++ set_items bset) (items-fresh fresh f))

has_room :
    (bse : Bse) (rest : List Bse) (needed : ℕ)
    → lacks_room (bse ∷ rest) needed ≡ false
    → needed ≤ bse_avail bse
unfolding lacks_room
has_room bse rest needed e = ground arith

module _ (a : ℕ) (b : Option ℕ) where
  without_room-AddResult :
      (memory : Option (List ℕ)) (bset : List Bse) (new_bse : Option Bse)
      → Sized memory
      → IsBlocknrSet bset
      → FreshOrNone new_bse
      → AddResult bset (a, b) memory (add_without_room memory bset new_bse a b)
  unfolding add_without_room bse_init
  without_room-AddResult none bset none m w f = (refl, refl)
  without_room-AddResult (some cells) bset none m w f =
      (refl, (bse_init cells, refl, record { no_singles = refl; no_pairs = refl; array = m }))
  without_room-AddResult none bset (some fresh) m w f = put_fresh fresh bset a b f w
  without_room-AddResult (some cells) bset (some fresh) m w f = put_fresh fresh bset a b f w

  -- blocknr_set_add. With 0 the set holds the item besides what it held, and its entries are within
  -- their arrays; with -E_REPEAT the set is as it was and a fresh entry is ready; with -ENOMEM, which
  -- happens only where the allocator has no memory, the set is as it was.
  pub blocknr_set_add_lem :
      (memory : Option (List ℕ)) (bset : List Bse) (new_bse : Option Bse)
      → Sized memory
      → IsBlocknrSet bset
      → FreshOrNone new_bse
      → AddResult bset (a, b) memory (blocknr_set_add memory bset new_bse a b)
  unfolding blocknr_set_add
  blocknr_set_add_lem memory [] new_bse m w f = without_room-AddResult memory [] new_bse m w f
  blocknr_set_add_lem memory (bse ∷ rest) new_bse m w f =
      if_cases (AddResult (bse ∷ rest) (a, b) memory) (lacks_room (bse ∷ rest) (entries_needed b))
        (λ _. without_room-AddResult memory (bse ∷ rest) new_bse m w f)
        (λ e. put_first_lem bse rest a b w.0 w.1 (has_room bse rest (entries_needed b) e))

  -- How the loop may end: `later` is the set of the second round.
  abbrev pub LoopResult : (bset later : List Bse) → Option (List ℕ) → Option Added → Type 0
  LoopResult bset later memory none = ⊥
  LoopResult bset later memory (some r) =
      ((r.answer ≡ added) × (IsAdded bset (a, b) r ⊎ IsAdded later (a, b) r))
      ⊎ ((r.answer ≡ no_memory) × (r.bset ≡ bset) × (memory ≡ none))

-- ===== src/Coord/Walk.antt =====
-- The loop `for_all_units` of coord.h, and the same loop over the line of places.
use mathlib.Core.Option
use reiser.Base.{
  ℕ, zero, suc, ◌+◌, ◌*◌, ◌/◌, ◌<◌, ◌≡◌, refl, ap, ◌∙◌, true, false, not, Option, none, some, List,
  [], ◌∷◌, map, if◌then◌else◌, if_cases, arith,
}
use reiser.Coord.State.{Node, Coord}
use reiser.Coord.Init.{coord_is_existing_unit, coord_init_before_first_item}
use reiser.Coord.Step.{coord_next_unit}
use reiser.Coord.Valid.{IsNode, IsPlaced, num_units, rank, units_before}
use reiser.Coord.Moves.{coord_next_unit_refines, next_place}

-- The coords for which the body of the loop runs, from `c` on; `none` if the fuel runs out.
unfoldable pub walk_units : ℕ → Node → Coord → Option (List Coord)
walk_units zero node c = none
walk_units (suc fuel) node c =
    let rest =
      Option.map (◌∷◌ (coord_next_unit node c).1)
        (walk_units fuel node (coord_next_unit node c).1) in
    if (coord_next_unit node c).0 then some [] else rest

unfoldable pub for_all_units : ℕ → Node → Option (List Coord)
for_all_units fuel node = walk_units fuel node (coord_init_before_first_item node)

-- The places of `count` units, from the `k`-th on.
abbrev pub unit_places : ℕ → ℕ → List ℕ
unit_places k zero = []
unit_places k (suc count) = (2 * k + 1) ∷ unit_places (k + 1) count

-- Every coord of the list is at an existing unit.
abbrev pub AllExist : Node → List Coord → Type 0
AllExist node [] = Unit
AllExist node (c ∷ cs) = (coord_is_existing_unit node c ≡ true) × AllExist node cs

-- A walk ended, and met exactly the places that are listed.
abbrev pub Visits : Node → Option (List Coord) → List ℕ → Type 0
Visits node none places = ⊥
Visits node (some cs) places = (map (rank node) cs ≡ places) × AllExist node cs

Visits-cons :
    (node : Node) (c : Coord) (o : Option (List Coord)) (p : ℕ) (ps : List ℕ)
    → rank node c ≡ p
    → coord_is_existing_unit node c ≡ true
    → Visits node o ps
    → Visits node (Option.map (◌∷◌ c) o) (p ∷ ps)
Visits-cons node c none p ps e x v = v
Visits-cons node c (some cs) p ps e x v = (cc (e, v.0), (x, v.1))

next_stops : (m r k : ℕ) → (r + 1) / 2 ≡ k → k ≡ m → (next_place m r).0 ≡ true
next_stops m r k e h = ground arith

next_goes :
    (m r k : ℕ)
    → (r + 1) / 2 ≡ k
    → k < m
    → ((next_place m r).0 ≡ false) × ((next_place m r).1 ≡ 2 * k + 1)
next_goes m r k e h = ground arith

module _ (node : Node) (n : IsNode node) where
  walk-Visits :
      (fuel left : ℕ) (c : Coord) (k : ℕ)
      → IsPlaced node c
      → (rank node c + 1) / 2 ≡ k
      → k + left ≡ num_units node
      → left < fuel
      → Visits node (walk_units fuel node c) (unit_places k left)
  unfolding walk_units
  walk-Visits zero left c k p ek el f = absurd (omega arith)
  walk-Visits (suc fuel) zero c k p ek el f =
      let r = coord_next_unit node c in
      let g = coord_next_unit_refines node n c p in
      let stop : r.0 ≡ true = g.0 ∙ next_stops (num_units node) (rank node c) k ek (omega arith) in
      if_cases (λ o. Visits node o []) r.0 (λ _. (refl, tt)) (λ e. cc)
  walk-Visits (suc fuel) (suc left) c k p ek el f =
      let r = coord_next_unit node c in
      let g = coord_next_unit_refines node n c p in
      let next = next_goes (num_units node) (rank node c) k ek (omega arith) in
      let answer : r.0 ≡ false = g.0 ∙ next.0 in
      let place : rank node r.1 ≡ 2 * k + 1 = g.1 ∙ next.1 in
      if_cases (λ o. Visits node o (unit_places k (suc left))) r.0 (λ e. cc)
        (λ e.
          Visits-cons node r.1 (walk_units fuel node r.1) (2 * k + 1) (unit_places (k + 1) left)
            place (g.3 ∙ ap not answer)
            (walk-Visits fuel left r.1 (k + 1) g.2 (omega arith) (omega arith) (omega arith)))

  before_first_item-IsPlaced :
      IsPlaced node (coord_init_before_first_item node)
      × (rank node (coord_init_before_first_item node) ≡ 0)
  unfolding coord_init_before_first_item units_before
  before_first_item-IsPlaced = ground (arith, n.units_fit 0)

  -- The loop for_all_units ends, with fuel for one step more than the node has units. Its body runs
  -- for existing units only, once for each place of a unit on the line, from left to right.
  pub for_all_units_lem :
      (fuel : ℕ)
      → num_units node < fuel
      → Visits node (for_all_units fuel node) (unit_places 0 (num_units node))
  unfolding for_all_units
  for_all_units_lem fuel f =
      let first = before_first_item-IsPlaced in
      walk-Visits fuel (num_units node) (coord_init_before_first_item node) 0 first.0
        (omega (arith, first.1)) (omega arith) f

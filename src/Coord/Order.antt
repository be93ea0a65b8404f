-- ===== src/Coord/Order.antt =====
-- Existing units are ordered as on the line of places.
use mathlib.Core.Path.{subst}
use reiser.Base.{
  ℕ, ◌+◌, ◌*◌, ◌<◌, ◌≡◌, ap, ◌∙◌, Bool, true, false, not, ◌||◌, if◌then◌else◌, ltb, ◌==◌, arith,
}
use reiser.Coord.State.{Node, Between, at_unit, Coord}
use reiser.Coord.Init.{coord_is_existing_unit}
use reiser.Coord.Step.{coord_next_unit, coord_prev_unit}
use reiser.Coord.Compare.{same, on_left, on_right, coord_compare, units_adjoin, coord_are_neighbors}
use reiser.Coord.Valid.{
  IsNode, IsPlaced, units_before, num_units, rank, rank_at, units_end-le, around,
}
use reiser.Coord.Moves.{
  coord_next_unit_refines, coord_prev_unit_refines, next_place, prev_place, Goes,
}

-- A coord at a unit that exists.
pub record IsUnit (node : Node) (c : Coord) : Type 0 where
  pub at : c.between ≡ at_unit
  pub item : c.item_pos < node.num_items
  pub unit : c.unit_pos < node.nr_units c.item_pos

module _ (node : Node) where
  place-IsUnit :
      (i u : ℕ) (b : Between)
      → coord_is_existing_unit node (record { item_pos = i; unit_pos = u; between = b }) ≡ true
      → IsUnit node (record { item_pos = i; unit_pos = u; between = b })
  unfolding coord_is_existing_unit
  place-IsUnit i u at_unit e = ground arith
  place-IsUnit i u _ e = cc

  pub exists-IsUnit : (c : Coord) → coord_is_existing_unit node c ≡ true → IsUnit node c
  exists-IsUnit c e = place-IsUnit c.item_pos c.unit_pos c.between e

  IsUnit-IsPlaced_at :
      (i u : ℕ) (b : Between)
      → b ≡ at_unit
      → i < node.num_items
      → u < node.nr_units i
      → IsPlaced node (record { item_pos = i; unit_pos = u; between = b })
  IsUnit-IsPlaced_at i u at_unit e h k = (h, k)
  IsUnit-IsPlaced_at i u _ e h k = cc

  pub IsUnit-IsPlaced : (c : Coord) → IsUnit node c → IsPlaced node c
  IsUnit-IsPlaced c x = IsUnit-IsPlaced_at c.item_pos c.unit_pos c.between x.at x.item x.unit

  pub rank_unit :
      (c : Coord)
      → IsUnit node c
      → rank node c ≡ 2 * (units_before node c.item_pos + c.unit_pos) + 1
  rank_unit c x = ap (rank_at node c.item_pos c.unit_pos) x.at

  -- Of two units of a node, one stands before the other on the line exactly if its item is on the
  -- left, or it is on the left in the same item.
  pub unit_order :
      (c d : Coord)
      → IsUnit node c
      → IsUnit node d
      → c.item_pos < d.item_pos
      → rank node c < rank node d
  unit_order c d x y h =
      omega (arith, rank_unit c x, rank_unit d y, x.unit, units_end-le node c.item_pos d.item_pos h)

  -- coord_compare of two existing units of a node tells how they stand on the line of places.
  pub coord_compare_refines :
      (c d : Coord)
      → IsUnit node c
      → IsUnit node d
      → coord_compare c d ≡ (
          if ltb (rank node d) (rank node c)
          then on_right
          else if ltb (rank node c) (rank node d)
          then on_left
          else same)
  unfolding coord_compare
  coord_compare_refines c d x y = ground (
    arith,
    unit_order c d x y,
    unit_order d c y x,
    rank_unit c x,
    rank_unit d y,
    ap (units_before node) {x = c.item_pos} {y = d.item_pos},
  )

  -- The place on the line determines a unit.
  pub rank-injective :
      (c d : Coord) → IsUnit node c → IsUnit node d → rank node c ≡ rank node d → c ≡ d
  rank-injective c d x y e = ground (
    arith,
    unit_order c d x y,
    unit_order d c y x,
    rank_unit c x,
    rank_unit d y,
    ap (units_before node) {x = c.item_pos} {y = d.item_pos},
  )

module _ (node : Node) (n : IsNode node) where
  adjoin_lem :
      (c d : Coord)
      → IsUnit node c
      → IsUnit node d
      → rank node c < rank node d
      → units_adjoin node c d ≡ (rank node d == rank node c + 2)
  unfolding units_adjoin
  adjoin_lem c d x y h = ground (
    arith,
    around node c.item_pos n x.item,
    around node d.item_pos n y.item,
    unit_order node d c y x,
    rank_unit node c x,
    rank_unit node d y,
    ap (units_before node) {x = c.item_pos} {y = d.item_pos},
    ap (units_before node) {x = c.item_pos + 1} {y = d.item_pos},
    units_end-le node (c.item_pos + 1) d.item_pos,
    n.units_fit (c.item_pos + 1),
  )

  -- coord_are_neighbors holds of two existing units of a node exactly if no unit stands between them
  -- and they differ, also across a border of items.
  pub coord_are_neighbors_refines :
      (c d : Coord)
      → IsUnit node c
      → IsUnit node d
      → coord_are_neighbors node c d
        ≡ (rank node d == rank node c + 2 || rank node c == rank node d + 2)
  unfolding coord_are_neighbors
  coord_are_neighbors_refines c d x y =
      rw (coord_compare_refines node c d x y, coord_are_neighbors)
        (ground (arith, adjoin_lem c d x y, adjoin_lem d c y x))

  -- A move that answered 0 and went to the place of a unit is at that unit.
  lands_on :
      (c : Coord) (r : Bool × Coord) (target : Bool × ℕ)
      → IsUnit node c
      → Goes node r target
      → target.0 ≡ false
      → target.1 ≡ rank node c
      → r ≡ (false, c)
  lands_on c r target x g stop place =
      let answer : r.0 ≡ false = g.0 ∙ stop in
      let y = exists-IsUnit node r.1 (g.3 ∙ ap not answer) in
      let e = rank-injective node r.1 c y x (g.1 ∙ place) in cc

  next_place_of_unit :
      (c d : Coord)
      → IsUnit node c
      → Goes node (false, d) (next_place (num_units node) (rank node c))
      → rank node d ≡ rank node c + 2
  next_place_of_unit c d x g = ground (arith, rank_unit node c x)

  prev_place_of_unit :
      (c : Coord) (r : ℕ)
      → IsUnit node c
      → r ≡ rank node c + 2
      → ((prev_place r).0 ≡ false) × ((prev_place r).1 ≡ rank node c)
  prev_place_of_unit c r x e = ground (arith, rank_unit node c x)

  -- Where coord_next_unit moves from an existing unit and returns 0, coord_prev_unit moves back to it
  -- and returns 0.
  pub prev-next :
      (c d : Coord)
      → IsUnit node c
      → coord_next_unit node c ≡ (false, d)
      → coord_prev_unit node d ≡ (false, c)
  prev-next c d x e =
      let g =
        subst (λ r. Goes node r (next_place (num_units node) (rank node c))) e
          (coord_next_unit_refines node n c (IsUnit-IsPlaced node c x)) in
      let back = prev_place_of_unit c (rank node d) x (next_place_of_unit c d x g) in
      lands_on c (coord_prev_unit node d) (prev_place (rank node d)) x
        (coord_prev_unit_refines node n d g.2) back.0 back.1

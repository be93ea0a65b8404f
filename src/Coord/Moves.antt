-- ===== src/Coord/Moves.antt =====
-- The moves by one unit, as moves on the line of places.
use reiser.Base.{
  ℕ, ◌+◌, ◌-◌, ◌*◌, ◌/◌, ◌%◌, ◌<◌, ◌≡◌, not, Bool, true, false, if◌then◌else◌, ltb, ◌==◌, arith,
}
use mathlib.Core.Path.{subst, sym}
use reiser.Coord.State.{
  Node, Between, before_unit, at_unit, after_unit, before_item, after_item, invalid_coord,
  empty_node, Coord,
}
use reiser.Coord.Init.{coord_is_existing_unit}
use reiser.Coord.Step.{
  cross_right, coord_next_unit, cross_left, coord_prev_unit, coord_set_to_right, coord_set_to_left,
}
use reiser.Coord.Valid.{
  IsNode, IsPlaced, IsPlacedAt, units_before, num_units, rank, rank_at, around, last_item,
}

-- To the next unit right of place `r`, or to the end of a line with `n` units.
abbrev pub next_place : ℕ → ℕ → Bool × ℕ
next_place n r = if ltb ((r + 1) / 2) n then (false, 2 * ((r + 1) / 2) + 1) else (true, 2 * n)

-- To the next unit left of place `r`, or to the left end.
abbrev pub prev_place : ℕ → Bool × ℕ
prev_place r = if r / 2 == 0 then (true, 0) else (false, 2 * (r / 2) - 1)

-- A unit stays; a gap goes to the unit on its right, or stays at the end.
abbrev pub right_place : ℕ → ℕ → Bool × ℕ
right_place n r =
    if r % 2 == 1 then (false, r) else if ltb (r / 2) n then (false, r + 1) else (true, 2 * n)

-- A unit stays; a gap goes to the unit on its left, or stays at the left end.
abbrev pub left_place : ℕ → Bool × ℕ
left_place r = if r % 2 == 1 then (false, r) else if r == 0 then (true, 0) else (false, r - 1)

-- A move took a coord to a well placed one, with the answer and the place that are given; it is at
-- an existing unit if and only if the answer is 0.
abbrev pub Goes : Node → Bool × Coord → Bool × ℕ → Type 0
Goes node (stop, c) (stop', r) =
    (stop ≡ stop')
    × (rank node c ≡ r)
    × IsPlaced node c
    × (coord_is_existing_unit node c ≡ not stop)

abbrev at : ℕ → ℕ → Between → Coord
at i u b = record { item_pos = i; unit_pos = u; between = b }

units_before-zero : (node : Node) (i : ℕ) → i ≡ 0 → units_before node i ≡ 0
unfolding units_before
units_before-zero node i e = rw (e, units_before)

pub num_units-zero : (node : Node) → node.num_items ≡ 0 → num_units node ≡ 0
unfolding num_units
num_units-zero node e = units_before-zero node node.num_items e

module _ (node : Node) (n : IsNode node) where
  cross_right-Goes :
      (i : ℕ)
      → i < node.num_items
      → Goes node
          (cross_right (at i 0 after_item) node.num_items)
          (next_place (num_units node) (rank_at node i 0 after_item))
  unfolding cross_right coord_is_existing_unit
  cross_right-Goes i h = ground (arith, around node i n h, around node (i + 1) n, last_item node i)

  cross_left-Goes :
      (i u : ℕ) (b : Between) (r : ℕ)
      → i < node.num_items
      → 0 < i
      → r / 2 ≡ units_before node i
      → Goes node (cross_left node (at i u b)) (prev_place r)
  unfolding cross_left coord_is_existing_unit
  cross_left-Goes i u b r h p e = ground (arith, around node i n h, around node (i - 1) n)

  next_unit-Goes :
      (i u : ℕ) (b : Between)
      → IsPlacedAt node i u b
      → Goes node
          (coord_next_unit node (at i u b))
          (next_place (num_units node) (rank_at node i u b))
  unfolding coord_next_unit coord_is_existing_unit
  next_unit-Goes i u before_unit h = ground (arith, around node i n)
  next_unit-Goes i u at_unit h = ground (arith, around node i n, cross_right-Goes i)
  next_unit-Goes i u after_unit h = ground (arith, around node i n, cross_right-Goes i)
  next_unit-Goes i u before_item h = ground (arith, around node i n)
  next_unit-Goes i u after_item h = ground (arith, cross_right-Goes i)
  next_unit-Goes i u invalid_coord h = absurd h
  next_unit-Goes i u empty_node h = ground (arith, num_units-zero node)

  prev_unit-Goes :
      (i u : ℕ) (b : Between)
      → IsPlacedAt node i u b
      → Goes node (coord_prev_unit node (at i u b)) (prev_place (rank_at node i u b))
  unfolding coord_prev_unit coord_is_existing_unit
  prev_unit-Goes i u before_unit h = ground (
    arith,
    around node i n,
    units_before-zero node i,
    cross_left-Goes i u before_unit (rank_at node i u before_unit),
  )
  prev_unit-Goes i u at_unit h = ground (
    arith,
    around node i n,
    units_before-zero node i,
    cross_left-Goes i u at_unit (rank_at node i u at_unit),
  )
  prev_unit-Goes i u after_unit h = ground (arith, around node i n)
  prev_unit-Goes i u before_item h = ground (
    arith,
    units_before-zero node i,
    cross_left-Goes i u before_item (rank_at node i u before_item),
  )
  prev_unit-Goes i u after_item h = ground (arith, around node i n)
  prev_unit-Goes i u invalid_coord h = absurd h
  prev_unit-Goes i u empty_node h = ground arith

  set_to_right-Goes :
      (i u : ℕ) (b : Between)
      → IsPlacedAt node i u b
      → Goes node
          (coord_set_to_right node (at i u b))
          (right_place (num_units node) (rank_at node i u b))
  unfolding coord_set_to_right coord_is_existing_unit
  set_to_right-Goes i u before_unit h = ground (arith, around node i n)
  set_to_right-Goes i u at_unit h = ground (arith, around node i n)
  set_to_right-Goes i u after_unit h =
      ground (arith, around node i n, around node (i + 1) n, last_item node i)
  set_to_right-Goes i u before_item h = ground (arith, around node i n)
  set_to_right-Goes i u after_item h =
      ground (arith, around node i n, around node (i + 1) n, last_item node i)
  set_to_right-Goes i u invalid_coord h = absurd h
  set_to_right-Goes i u empty_node h = ground (arith, num_units-zero node)

  set_to_left-Goes :
      (i u : ℕ) (b : Between)
      → IsPlacedAt node i u b
      → ¬ ((b ≡ before_unit) × (u ≡ 0) × (0 < i))
      → Goes node (coord_set_to_left node (at i u b)) (left_place (rank_at node i u b))
  unfolding coord_set_to_left coord_is_existing_unit
  set_to_left-Goes i u before_unit h w = ground (arith, around node i n, units_before-zero node i)
  set_to_left-Goes i u at_unit h w = ground (arith, around node i n)
  set_to_left-Goes i u after_unit h w = ground (arith, around node i n)
  set_to_left-Goes i u before_item h w =
      ground (arith, around node i n, around node (i - 1) n, units_before-zero node i)
  set_to_left-Goes i u after_item h w = ground (arith, around node i n)
  set_to_left-Goes i u invalid_coord h w = absurd h
  set_to_left-Goes i u empty_node h w = ground arith

  -- coord_next_unit goes to the next unit on the right and returns 0, or to the right end of the node
  -- and returns 1; the result is well placed, and at an existing unit exactly if 0 is returned.
  pub coord_next_unit_refines :
      (c : Coord)
      → IsPlaced node c
      → Goes node (coord_next_unit node c) (next_place (num_units node) (rank node c))
  coord_next_unit_refines c h = next_unit-Goes c.item_pos c.unit_pos c.between h

  -- coord_prev_unit goes to the next unit on the left and returns 0, or to the left end of the node
  -- and returns 1; the result is well placed, and at an existing unit exactly if 0 is returned.
  pub coord_prev_unit_refines :
      (c : Coord) → IsPlaced node c → Goes node (coord_prev_unit node c) (prev_place (rank node c))
  coord_prev_unit_refines c h = prev_unit-Goes c.item_pos c.unit_pos c.between h

  -- coord_set_to_right leaves a unit where it is, and takes a gap to the unit on its right with 0, or
  -- to the right end of the node with 1.
  pub coord_set_to_right_refines :
      (c : Coord)
      → IsPlaced node c
      → Goes node (coord_set_to_right node c) (right_place (num_units node) (rank node c))
  coord_set_to_right_refines c h = set_to_right-Goes c.item_pos c.unit_pos c.between h

  -- coord_set_to_left leaves a unit where it is, and takes a gap to the unit on its left with 0, or to
  -- the left end of the node with 1, except from before the first unit of an item that is not the
  -- first.
  pub coord_set_to_left_refines :
      (c : Coord)
      → IsPlaced node c
      → ¬ ((c.between ≡ before_unit) × (c.unit_pos ≡ 0) × (0 < c.item_pos))
      → Goes node (coord_set_to_left node c) (left_place (rank node c))
  coord_set_to_left_refines c h w = set_to_left-Goes c.item_pos c.unit_pos c.between h w

  set_to_left-misses :
      (i u : ℕ)
      → i < node.num_items
      → 0 < i
      → u ≡ 0
      → node.nr_units (i - 1) < node.nr_units i
      → ((coord_set_to_left node (at i u before_unit)).0 ≡ false)
        × (coord_is_existing_unit node (coord_set_to_left node (at i u before_unit)).1 ≡ false)
  unfolding coord_set_to_left coord_is_existing_unit
  set_to_left-misses i u h p e l = ground (arith, around node i n, around node (i - 1) n)

  -- From before the first unit of an item that has more units than the item on its left,
  -- coord_set_to_left returns 0 with a coord that is at no existing unit: it takes the last unit
  -- number of the item that it leaves.
  pub coord_set_to_left_misses :
      (c : Coord)
      → c.between ≡ before_unit
      → c.unit_pos ≡ 0
      → 0 < c.item_pos
      → c.item_pos < node.num_items
      → node.nr_units (c.item_pos - 1) < node.nr_units c.item_pos
      → ((coord_set_to_left node c).0 ≡ false)
        × (coord_is_existing_unit node (coord_set_to_left node c).1 ≡ false)
  coord_set_to_left_misses c b u p h l =
      subst
        (λ b'.
          ((coord_set_to_left node (at c.item_pos c.unit_pos b')).0 ≡ false)
          × (coord_is_existing_unit node (coord_set_to_left node (at c.item_pos c.unit_pos b')).1
              ≡ false))
        (sym b) (set_to_left-misses c.item_pos c.unit_pos h p u l)

-- ===== src/Tests/Coord.antt =====
-- coord.c in a node of three items, with 2, 1 and 3 units.
use reiser.Base.{ℕ, ◌+◌, ◌≡◌, refl, inr, true, false, ◌||◌, ◌==◌, ltb, if◌then◌else◌, arith}
use reiser.Coord.State.{Node, Coord, Between, before_unit, at_unit, after_unit, before_item}
use reiser.Coord.Init.{coord_normalize, coord_check, coord_is_existing_unit}
use reiser.Coord.Step.{coord_next_unit, coord_prev_unit, coord_set_to_right, coord_set_to_left}
use reiser.Coord.Compare.{coord_compare, coord_are_neighbors, on_left, on_right, same}
use reiser.Coord.Valid.{IsNode, IsPlaced, units_before, num_units, rank}
use reiser.Coord.Moves.{
  Goes, next_place, prev_place, right_place, left_place, coord_next_unit_refines,
  coord_prev_unit_refines, coord_set_to_right_refines, coord_set_to_left_refines,
  coord_set_to_left_misses,
}
use reiser.Coord.Order.{coord_compare_refines, coord_are_neighbors_refines, prev-next}
use reiser.Coord.Items.{coord_normalize_lem}
use reiser.Coord.Walk.{for_all_units, Visits, unit_places, for_all_units_lem}

abbrev three_items : Node
three_items = record {
  num_items = 3;
  nr_units = λ i. if i == 0 then 2 else if i == 1 then 1 else 3;
}

abbrev coord : ℕ → ℕ → Between → Coord
coord i u b = record { item_pos = i; unit_pos = u; between = b }

three_items-IsNode : IsNode three_items
three_items-IsNode = record { items_fit = omega arith; units_fit = λ i h. ground arith }

six_units : num_units three_items ≡ 6
unfolding num_units units_before
six_units = refl

coord_next_unit_refines_example :
    Goes three_items
      (coord_next_unit three_items (coord 0 1 at_unit))
      (next_place (num_units three_items) (rank three_items (coord 0 1 at_unit)))
coord_next_unit_refines_example =
    coord_next_unit_refines three_items three_items-IsNode (coord 0 1 at_unit) (omega arith)

coord_prev_unit_refines_example :
    Goes three_items
      (coord_prev_unit three_items (coord 2 0 at_unit))
      (prev_place (rank three_items (coord 2 0 at_unit)))
coord_prev_unit_refines_example =
    coord_prev_unit_refines three_items three_items-IsNode (coord 2 0 at_unit) (omega arith)

coord_set_to_right_refines_example :
    Goes three_items
      (coord_set_to_right three_items (coord 0 1 after_unit))
      (right_place (num_units three_items) (rank three_items (coord 0 1 after_unit)))
coord_set_to_right_refines_example =
    coord_set_to_right_refines three_items three_items-IsNode (coord 0 1 after_unit) (omega arith)

coord_set_to_left_refines_example :
    Goes three_items
      (coord_set_to_left three_items (coord 2 0 before_item))
      (left_place (rank three_items (coord 2 0 before_item)))
coord_set_to_left_refines_example =
    coord_set_to_left_refines three_items three_items-IsNode (coord 2 0 before_item) (omega arith)
      (λ h. cc (h.0))

coord_set_to_left_misses_example :
    ((coord_set_to_left three_items (coord 2 0 before_unit)).0 ≡ false)
    × (coord_is_existing_unit three_items (coord_set_to_left three_items (coord 2 0 before_unit)).1
        ≡ false)
coord_set_to_left_misses_example =
    coord_set_to_left_misses three_items three_items-IsNode (coord 2 0 before_unit) refl refl
      (omega arith) (omega arith) (omega arith)

coord_compare_refines_example : coord_compare (coord 0 1 at_unit) (coord 2 0 at_unit) ≡ (
    if ltb (rank three_items (coord 2 0 at_unit)) (rank three_items (coord 0 1 at_unit))
    then on_right
    else if ltb (rank three_items (coord 0 1 at_unit)) (rank three_items (coord 2 0 at_unit))
    then on_left
    else same)
coord_compare_refines_example =
    coord_compare_refines three_items (coord 0 1 at_unit) (coord 2 0 at_unit)
      (record { at = refl; item = omega arith; unit = omega arith })
      (record { at = refl; item = omega arith; unit = omega arith })

coord_are_neighbors_refines_example :
    coord_are_neighbors three_items (coord 0 1 at_unit) (coord 1 0 at_unit) ≡ (
      rank three_items (coord 1 0 at_unit) == rank three_items (coord 0 1 at_unit) + 2
      || rank three_items (coord 0 1 at_unit) == rank three_items (coord 1 0 at_unit) + 2)
coord_are_neighbors_refines_example =
    coord_are_neighbors_refines three_items three_items-IsNode (coord 0 1 at_unit)
      (coord 1 0 at_unit) (record { at = refl; item = omega arith; unit = omega arith })
      (record { at = refl; item = omega arith; unit = omega arith })

next_crosses : coord_next_unit three_items (coord 0 1 at_unit) ≡ (false, coord 1 0 at_unit)
unfolding coord_next_unit
next_crosses = refl

prev-next_example : coord_prev_unit three_items (coord 1 0 at_unit) ≡ (false, coord 0 1 at_unit)
prev-next_example =
    prev-next three_items three_items-IsNode (coord 0 1 at_unit) (coord 1 0 at_unit)
      (record { at = refl; item = omega arith; unit = omega arith }) next_crosses

-- One past the last item, as after the loss of an item; the number read there is 3.
coord_normalize_lem_example :
    IsPlaced three_items (coord_normalize three_items (coord 3 0 before_unit))
    × (rank three_items (coord_normalize three_items (coord 3 0 before_unit))
        ≡ rank three_items (coord 3 0 before_unit))
    × (coord_check three_items (coord_normalize three_items (coord 3 0 before_unit)) ≡ true)
coord_normalize_lem_example =
    coord_normalize_lem three_items three_items-IsNode (omega arith) (coord 3 0 before_unit)
      (inr (refl, refl, omega arith))

for_all_units_lem_example :
    Visits three_items (for_all_units 7 three_items) (unit_places 0 (num_units three_items))
for_all_units_lem_example =
    for_all_units_lem three_items three_items-IsNode 7 (omega (arith, six_units))

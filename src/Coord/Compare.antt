-- ===== src/Coord/Compare.antt =====
-- The comparisons and the tests of coord.c that relate a coordinate to its node or to another, and
-- the functions that take a side.
use reiser.Base.{◌+◌, Bool, true, false, ◌&&◌, if◌then◌else◌, ltb, ◌==◌, sub32}
use reiser.Coord.State.{
  Node, before_unit, at_unit, after_unit, before_item, after_item, invalid_coord, empty_node, Coord,
  coord_last_unit_pos,
}
use reiser.Coord.Init.{coord_init_first_unit, coord_init_last_unit}
use reiser.Coord.Step.{coord_next_unit, coord_prev_unit}

-- `sideof`
pub data Side : Type 0 where
  left_side right_side : Side

-- `coord_cmp`
pub data Cmp : Type 0 where
  same on_left on_right : Cmp

-- `coord_wrt_node`
pub data Wrt : Type 0 where
  coord_on_the_left coord_on_the_right coord_inside : Wrt

unfoldable pub coord_is_after_rightmost : Node → Coord → Bool
unfolding coord_last_unit_pos
coord_is_after_rightmost node c = elim c.between [
  | empty_node ↦ true
  | after_item ↦ c.item_pos == sub32 node.num_items 1
  | after_unit ↦ c.item_pos == sub32 node.num_items 1 && c.unit_pos == coord_last_unit_pos node c
  | _ ↦ false
]

unfoldable pub coord_is_before_leftmost : Coord → Bool
coord_is_before_leftmost c = elim c.between [
  | empty_node ↦ true
  | before_item ↦ c.item_pos == 0 && c.unit_pos == 0
  | before_unit ↦ c.item_pos == 0 && c.unit_pos == 0
  | _ ↦ false
]

unfoldable pub coord_wrt : Node → Coord → Wrt
unfolding coord_is_before_leftmost coord_is_after_rightmost
coord_wrt node c =
    if coord_is_before_leftmost c
    then coord_on_the_left
    else if coord_is_after_rightmost node c
    then coord_on_the_right
    else coord_inside

unfoldable pub coord_is_between_items : Node → Coord → Bool
unfolding coord_last_unit_pos
coord_is_between_items node c = elim c.between [
  | invalid_coord ↦ false
  | at_unit ↦ false
  | before_unit ↦ c.unit_pos == 0
  | after_unit ↦ c.unit_pos == coord_last_unit_pos node c
  | _ ↦ true
]

unfoldable pub coord_compare : Coord → Coord → Cmp
coord_compare c1 c2 =
    if ltb c2.item_pos c1.item_pos
    then on_right
    else if ltb c1.item_pos c2.item_pos
    then on_left
    else if ltb c2.unit_pos c1.unit_pos
    then on_right
    else if ltb c1.unit_pos c2.unit_pos
    then on_left
    else same

unfoldable pub units_adjoin : Node → Coord → Coord → Bool
unfolding coord_last_unit_pos
units_adjoin node left right =
    if left.item_pos == right.item_pos
    then left.unit_pos + 1 == right.unit_pos
    else if left.item_pos + 1 == right.item_pos
    then left.unit_pos == coord_last_unit_pos node left && right.unit_pos == 0
    else false

unfoldable pub coord_are_neighbors : Node → Coord → Coord → Bool
unfolding coord_compare units_adjoin
coord_are_neighbors node c1 c2 = elim (coord_compare c1 c2) [
  | on_left ↦ units_adjoin node c1 c2
  | on_right ↦ units_adjoin node c2 c1
  | same ↦ false
]

-- An assertion limits the side to the two that are matched here.
unfoldable pub coord_init_sideof_unit : Node → Side → Coord
unfolding coord_init_first_unit coord_init_last_unit
coord_init_sideof_unit node left_side = coord_init_first_unit node
coord_init_sideof_unit node right_side = coord_init_last_unit node

unfoldable pub coord_is_after_sideof_unit : Node → Coord → Side → Bool
unfolding coord_is_before_leftmost coord_is_after_rightmost
coord_is_after_sideof_unit node c left_side = coord_is_before_leftmost c
coord_is_after_sideof_unit node c right_side = coord_is_after_rightmost node c

unfoldable pub coord_sideof_unit : Node → Coord → Side → Bool × Coord
unfolding coord_prev_unit coord_next_unit
coord_sideof_unit node c left_side = coord_prev_unit node c
coord_sideof_unit node c right_side = coord_next_unit node c

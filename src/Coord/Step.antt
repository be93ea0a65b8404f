-- ===== src/Coord/Step.antt =====
-- The functions of coord.c that move a coordinate. Each returns its `int` (true for 1) and the coord.
-- Where a switch falls to the `impossible` below it, the result is 0 and the coord of that point.
use reiser.Base.{ℕ, ◌+◌, ◌-◌, Bool, true, false, if◌then◌else◌, ltb, leb, ◌==◌, sub32}
use reiser.Coord.State.{
  Node, before_unit, at_unit, after_unit, before_item, after_item, invalid_coord, empty_node, Coord,
  coord_set_item_pos, coord_dec_item_pos, coord_inc_item_pos, coord_last_unit_pos, place,
  at_position,
}

-- for a coord that is neither invalid nor in an empty node
unfoldable pub coord_adjust_range : Coord → ℕ → Bool → Bool × Coord
unfolding coord_set_item_pos
coord_adjust_range c items is_next =
    if leb items c.item_pos
    then (is_next, at_position (coord_set_item_pos c (sub32 items 1)) 0 after_item)
    else (false, c)

unfoldable pub coord_adjust_items : Coord → ℕ → Bool → Bool × Coord
unfolding coord_set_item_pos coord_adjust_range
coord_adjust_items c items is_next = elim c.between [
  | invalid_coord ↦ (true, c)
  | empty_node ↦ if items == 0 then (true, at_position (coord_set_item_pos c 0) 0 empty_node) else (
    false,
    at_position (coord_set_item_pos c 0) 0 (if is_next then before_item else after_item),
  )
  | _ ↦
      if items == 0
      then (true, at_position (coord_set_item_pos c 0) 0 empty_node)
      else coord_adjust_range c items is_next
]

-- case AFTER_ITEM of coord_next_unit and of coord_set_to_right
unfoldable pub cross_right : Coord → ℕ → Bool × Coord
unfolding coord_inc_item_pos
cross_right c items =
    if c.item_pos == sub32 items 1
    then (true, c)
    else (false, at_position (coord_inc_item_pos c) 0 at_unit)

unfoldable pub next_unit_switch : Node → Coord → ℕ → Bool × Coord
unfolding cross_right coord_last_unit_pos
next_unit_switch node c items = elim c.between [
  | before_unit ↦ (false, place c at_unit)
  | after_unit ↦
      if ltb c.unit_pos (coord_last_unit_pos node c)
      then (false, at_position c (c.unit_pos + 1) at_unit)
      else cross_right (at_position c 0 after_item) items
  | at_unit ↦
      if ltb c.unit_pos (coord_last_unit_pos node c)
      then (false, at_position c (c.unit_pos + 1) at_unit)
      else cross_right (at_position c 0 after_item) items
  | after_item ↦ cross_right c items
  | before_item ↦ (false, at_position c 0 at_unit)
  | _ ↦ (false, c)
]

unfoldable pub coord_next_unit : Node → Coord → Bool × Coord
unfolding coord_adjust_items next_unit_switch
coord_next_unit node c =
    let (stop, c') = coord_adjust_items c node.num_items true in
    if stop then (true, c') else next_unit_switch node c' node.num_items

unfoldable pub next_item_switch : Coord → ℕ → Bool × Coord
unfolding coord_inc_item_pos
next_item_switch c items = elim c.between [
  | before_item ↦ (false, at_position c 0 at_unit)
  | invalid_coord ↦ (false, c)
  | empty_node ↦ (false, c)
  | _ ↦
      if c.item_pos == sub32 items 1
      then (true, at_position c 0 after_item)
      else (false, at_position (coord_inc_item_pos c) 0 at_unit)
]

unfoldable pub coord_next_item : Node → Coord → Bool × Coord
unfolding coord_adjust_items next_item_switch
coord_next_item node c =
    let (stop, c') = coord_adjust_items c node.num_items true in
    if stop then (true, c') else next_item_switch c' node.num_items

-- to the last unit of the item on the left
unfoldable pub cross_left : Node → Coord → Bool × Coord
unfolding coord_dec_item_pos coord_last_unit_pos
cross_left node c =
    let c' = coord_dec_item_pos c in (false, at_position c' (coord_last_unit_pos node c') at_unit)

unfoldable pub prev_unit_switch : Node → Coord → Bool × Coord
unfolding cross_left coord_last_unit_pos
prev_unit_switch node c = elim c.between [
  | at_unit ↦
      if ltb 0 c.unit_pos
      then (false, at_position c (c.unit_pos - 1) at_unit)
      else if c.item_pos == 0
      then (true, place c before_item)
      else cross_left node c
  | before_unit ↦
      if ltb 0 c.unit_pos
      then (false, at_position c (c.unit_pos - 1) at_unit)
      else if c.item_pos == 0
      then (true, place c before_item)
      else cross_left node c
  | after_unit ↦ (false, place c at_unit)
  | before_item ↦ if c.item_pos == 0 then (true, c) else cross_left node c
  | after_item ↦ (false, at_position c (coord_last_unit_pos node c) at_unit)
  | _ ↦ (false, c)
]

unfoldable pub coord_prev_unit : Node → Coord → Bool × Coord
unfolding coord_adjust_items prev_unit_switch
coord_prev_unit node c =
    let (stop, c') = coord_adjust_items c node.num_items false in
    if stop then (true, c') else prev_unit_switch node c'

unfoldable pub prev_item_switch : Coord → Bool × Coord
unfolding coord_dec_item_pos
prev_item_switch c = elim c.between [
  | after_item ↦ (false, at_position c 0 at_unit)
  | invalid_coord ↦ (false, c)
  | empty_node ↦ (false, c)
  | _ ↦
      if c.item_pos == 0
      then (true, at_position c 0 before_item)
      else (false, at_position (coord_dec_item_pos c) 0 at_unit)
]

unfoldable pub coord_prev_item : Node → Coord → Bool × Coord
unfolding coord_adjust_items prev_item_switch
coord_prev_item node c =
    let (stop, c') = coord_adjust_items c node.num_items false in
    if stop then (true, c') else prev_item_switch c'

-- case AFTER_UNIT of coord_set_to_right
unfoldable pub right_of_unit : Node → Coord → ℕ → Bool × Coord
unfolding coord_inc_item_pos coord_last_unit_pos
right_of_unit node c items =
    if ltb c.unit_pos (coord_last_unit_pos node c)
    then (false, at_position c (c.unit_pos + 1) at_unit)
    else if c.item_pos == sub32 items 1
    then (true, at_position c 0 after_item)
    else (false, at_position (coord_inc_item_pos c) 0 at_unit)

unfoldable pub set_to_right_switch : Node → Coord → ℕ → Bool × Coord
unfolding cross_right right_of_unit
set_to_right_switch node c items = elim c.between [
  | at_unit ↦ (false, c)
  | before_item ↦ (false, place c at_unit)
  | before_unit ↦ (false, place c at_unit)
  | after_unit ↦ right_of_unit node c items
  | after_item ↦ cross_right c items
  | empty_node ↦ (true, c)
  | invalid_coord ↦ (false, c)
]

unfoldable pub coord_set_to_right : Node → Coord → Bool × Coord
unfolding coord_adjust_items set_to_right_switch
coord_set_to_right node c =
    let (stop, c') = coord_adjust_items c node.num_items true in
    if stop then (true, c') else set_to_right_switch node c' node.num_items

-- case BEFORE_UNIT of coord_set_to_left: the last unit is read off before the item changes
unfoldable pub left_of_unit : Node → Coord → Bool × Coord
unfolding coord_dec_item_pos coord_last_unit_pos
left_of_unit node c =
    if ltb 0 c.unit_pos
    then (false, at_position c (c.unit_pos - 1) at_unit)
    else if c.item_pos == 0
    then (true, place c before_item)
    else (false, at_position (coord_dec_item_pos c) (coord_last_unit_pos node c) at_unit)

unfoldable pub set_to_left_switch : Node → Coord → Bool × Coord
unfolding cross_left left_of_unit coord_last_unit_pos
set_to_left_switch node c = elim c.between [
  | at_unit ↦ (false, c)
  | after_unit ↦ (false, place c at_unit)
  | after_item ↦ (false, at_position c (coord_last_unit_pos node c) at_unit)
  | before_unit ↦ left_of_unit node c
  | before_item ↦ if c.item_pos == 0 then (true, c) else cross_left node c
  | empty_node ↦ (true, c)
  | invalid_coord ↦ (false, c)
]

unfoldable pub coord_set_to_left : Node → Coord → Bool × Coord
unfolding coord_adjust_items set_to_left_switch
coord_set_to_left node c =
    let (stop, c') = coord_adjust_items c node.num_items false in
    if stop then (true, c') else set_to_left_switch node c'

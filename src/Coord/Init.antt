-- ===== src/Coord/Init.antt =====
-- The initializers and the tests of coord.c.
use reiser.Base.{
  ℕ, ◌+◌, ◌-◌, ◌%◌, ◌^◌, Bool, true, false, not, ◌&&◌, ◌||◌, if◌then◌else◌, ltb, ◌==◌, sub32,
  to_u16,
}
use reiser.Coord.State.{
  Node, Between, before_unit, at_unit, after_unit, before_item, after_item, invalid_coord,
  empty_node, Coord, node_is_empty, coord_dec_item_pos, coord_num_units, coord_last_unit_pos, place,
  at_position,
}

unfoldable pub coord_init_values : ℕ → ℕ → Between → Coord
coord_init_values item_pos unit_pos between = record {
  item_pos = to_u16 item_pos;
  unit_pos = to_u16 unit_pos;
  between = between;
}

unfoldable pub coord_init_invalid : Node → Coord
unfolding coord_init_values
coord_init_invalid node = coord_init_values 0 0 invalid_coord

unfoldable pub coord_init_first_unit_nocheck : Node → Coord
unfolding coord_init_values
coord_init_first_unit_nocheck node = coord_init_values 0 0 at_unit

unfoldable pub coord_init_first_unit : Node → Coord
unfolding coord_init_values node_is_empty
coord_init_first_unit node =
    coord_init_values 0 0 (if node_is_empty node then empty_node else at_unit)

unfoldable pub coord_init_last_unit : Node → Coord
unfolding coord_init_values node_is_empty coord_last_unit_pos
coord_init_last_unit node =
    let is_empty = node_is_empty node in
    let c =
      coord_init_values (if is_empty then 0 else sub32 node.num_items 1) 0
        (if is_empty then empty_node else at_unit) in
    if not is_empty then record c { unit_pos = to_u16 (coord_last_unit_pos node c) } else c

unfoldable pub coord_init_before_first_item : Node → Coord
unfolding coord_init_values node_is_empty
coord_init_before_first_item node =
    coord_init_values 0 0 (if node_is_empty node then empty_node else before_unit)

unfoldable pub coord_init_after_last_item : Node → Coord
unfolding coord_init_values node_is_empty
coord_init_after_last_item node =
    let is_empty = node_is_empty node in
    coord_init_values (if is_empty then 0 else sub32 node.num_items 1) 0
      (if is_empty then empty_node else after_item)

unfoldable pub coord_init_after_item_end : Node → Coord → Coord
unfolding coord_last_unit_pos
coord_init_after_item_end node c = at_position c (coord_last_unit_pos node c) after_unit

unfoldable pub coord_init_before_item : Coord → Coord
coord_init_before_item c = at_position c 0 before_item

unfoldable pub coord_init_after_item : Coord → Coord
coord_init_after_item c = at_position c 0 after_item

-- All bytes zero; `before_unit` is the value 0 of its type.
unfoldable pub coord_init_zero : Coord
coord_init_zero = record { item_pos = 0; unit_pos = 0; between = before_unit }

abbrev pub is_after : Between → Bool
is_after after_item = true
is_after after_unit = true
is_after _ = false

abbrev pub is_before_item : Between → Bool
is_before_item before_item = true
is_before_item _ = false

abbrev pub is_before_unit : Between → Bool
is_before_unit before_unit = true
is_before_unit _ = false

-- the last two branches, for a place that is neither after nor before an item
unfoldable pub coord_normalize_unit : Node → Coord → Coord
unfolding coord_num_units coord_dec_item_pos
coord_normalize_unit node c =
    if c.unit_pos == coord_num_units node c && is_before_unit c.between
    then record c { unit_pos = (c.unit_pos + 2 ^ 16 - 1) % 2 ^ 16; between = after_unit }
    else if c.item_pos == node.num_items && c.unit_pos == 0 && is_before_unit c.between
    then at_position (coord_dec_item_pos c) 0 after_item
    else c

unfoldable pub coord_normalize : Node → Coord → Coord
unfolding coord_init_first_unit coord_dec_item_pos node_is_empty coord_normalize_unit
coord_normalize node c =
    if node_is_empty node
    then coord_init_first_unit node
    else if is_after c.between
    then c
    else if c.item_pos == node.num_items && is_before_item c.between
    then place (coord_dec_item_pos c) after_item
    else coord_normalize_unit node c

unfoldable pub coord_is_invalid : Coord → Bool
coord_is_invalid c = elim c.between [ invalid_coord ↦ true | _ ↦ false ]

unfoldable pub coord_is_existing_item : Node → Coord → Bool
coord_is_existing_item node c = elim c.between [
  | before_unit ↦ ltb c.item_pos node.num_items
  | at_unit ↦ ltb c.item_pos node.num_items
  | after_unit ↦ ltb c.item_pos node.num_items
  | _ ↦ false
]

unfoldable pub coord_is_existing_unit : Node → Coord → Bool
unfolding coord_num_units
coord_is_existing_unit node c = elim c.between [
  | at_unit ↦ ltb c.item_pos node.num_items && ltb c.unit_pos (coord_num_units node c)
  | _ ↦ false
]

unfoldable pub coord_is_leftmost_unit : Coord → Bool
coord_is_leftmost_unit c = elim c.between [
  | at_unit ↦ c.item_pos == 0 && c.unit_pos == 0
  | _ ↦ false
]

-- `coord_check` of a coord whose node is not above the root and whose plugin is not cached.
unfoldable pub coord_check : Node → Coord → Bool
unfolding node_is_empty
coord_check node c = elim c.between [
  | invalid_coord ↦ false
  | empty_node ↦ node_is_empty node && c.item_pos == 0 && c.unit_pos == 0
  | before_unit ↦
      (node_is_empty node && c.item_pos == 0 && c.unit_pos == 0) || ltb c.item_pos node.num_items
  | after_unit ↦
      (node_is_empty node && c.item_pos == 0 && c.unit_pos == 0) || ltb c.item_pos node.num_items
  | at_unit ↦ ltb c.item_pos node.num_items
  | before_item ↦ c.unit_pos == 0 && ltb c.item_pos node.num_items
  | after_item ↦ c.unit_pos == 0 && ltb c.item_pos node.num_items
]

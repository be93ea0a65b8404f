-- ===== src/Coord/State.antt =====
-- `struct coord` and the accessors of coord.h. A node is what its plugins answer: the number of
-- items, and the number of units of each. `item_pos` and `unit_pos` are `unsigned short`, a count
-- of items or units is `unsigned`. The cache of the item's plugin (`iplugid`, `offset`) has no
-- field here: it is cleared wherever `item_pos` is written, and refilled from the item on use.
use reiser.Base.{ℕ, ◌+◌, ◌-◌, ◌%◌, ◌^◌, Bool, ◌==◌, sub32, to_u16}

pub record Node : Type 0 where
  pub num_items : ℕ
  pub nr_units : ℕ → ℕ

-- `between_enum`
pub data Between : Type 0 where
  before_unit at_unit after_unit before_item after_item invalid_coord empty_node : Between

pub record Coord : Type 0 where
  pub item_pos : ℕ
  pub unit_pos : ℕ
  pub between : Between

unfoldable pub node_is_empty : Node → Bool
node_is_empty node = node.num_items == 0

unfoldable pub coord_set_item_pos : Coord → ℕ → Coord
coord_set_item_pos c pos = record c { item_pos = to_u16 pos }

unfoldable pub coord_dec_item_pos : Coord → Coord
coord_dec_item_pos c = record c { item_pos = (c.item_pos + 2 ^ 16 - 1) % 2 ^ 16 }

unfoldable pub coord_inc_item_pos : Coord → Coord
coord_inc_item_pos c = record c { item_pos = to_u16 (c.item_pos + 1) }

unfoldable pub coord_num_units : Node → Coord → ℕ
coord_num_units node c = node.nr_units c.item_pos

unfoldable pub coord_last_unit_pos : Node → Coord → ℕ
unfolding coord_num_units
coord_last_unit_pos node c = sub32 (coord_num_units node c) 1

abbrev pub place : Coord → Between → Coord
place c b = record c { between = b }

abbrev pub at_position : Coord → ℕ → Between → Coord
at_position c pos b = record c { unit_pos = to_u16 pos; between = b }

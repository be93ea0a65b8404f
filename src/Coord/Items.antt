-- ===== src/Coord/Items.antt =====
-- The moves by one item, and the normalization of a coord after its node has changed.
use reiser.Base.{
  ℕ, ◌+◌, ◌-◌, ◌≤◌, ◌<◌, ◌≡◌, ◌≢◌, ◌⊎◌, inl, inr, refl, ap, Bool, true, false, if◌then◌else◌, ◌==◌,
  arith,
}
use reiser.Coord.State.{
  Node, Between, before_unit, at_unit, after_unit, before_item, after_item, invalid_coord,
  empty_node, Coord,
}
use reiser.Coord.Init.{coord_check, coord_normalize}
use reiser.Coord.Step.{coord_next_item, coord_prev_item}
use reiser.Coord.Valid.{IsNode, IsPlaced, IsPlacedAt, units_before, rank, rank_at, around}

abbrev first_unit_of : ℕ → Bool × Coord
first_unit_of i = (false, record { item_pos = i; unit_pos = 0; between = at_unit })

-- From before an item to its first unit; else to the first unit of the item on the right, if there
-- is one.
abbrev pub next_item_of : ℕ → ℕ → Between → Bool × Coord
next_item_of items i before_item = first_unit_of i
next_item_of items i _ =
    if i + 1 == items
    then (true, record { item_pos = i; unit_pos = 0; between = after_item })
    else first_unit_of (i + 1)

-- From after an item to its first unit; else to the first unit of the item on the left, if there is
-- one.
abbrev pub prev_item_of : ℕ → Between → Bool × Coord
prev_item_of i after_item = first_unit_of i
prev_item_of i _ =
    if i == 0
    then (true, record { item_pos = 0; unit_pos = 0; between = before_item })
    else first_unit_of (i - 1)

module _ (node : Node) (n : IsNode node) where
  next_item_at :
      (i u : ℕ) (b : Between)
      → IsPlacedAt node i u b
      → b ≢ empty_node
      → coord_next_item node (record { item_pos = i; unit_pos = u; between = b })
        ≡ next_item_of node.num_items i b
  unfolding coord_next_item
  next_item_at i u invalid_coord h e = absurd h
  next_item_at i u empty_node h e = absurd (e refl)
  next_item_at i u _ h e = ground (arith, n.items_fit)

  prev_item_at :
      (i u : ℕ) (b : Between)
      → IsPlacedAt node i u b
      → b ≢ empty_node
      → coord_prev_item node (record { item_pos = i; unit_pos = u; between = b }) ≡ prev_item_of i b
  unfolding coord_prev_item
  prev_item_at i u invalid_coord h e = absurd h
  prev_item_at i u empty_node h e = absurd (e refl)
  prev_item_at i u _ h e = ground (arith, n.items_fit)

  -- In a node that is not empty, coord_next_item goes to the first unit of the item that is next on
  -- the right (from before an item, of that item) and returns 0; past the last item it goes to after
  -- that item and returns 1.
  pub coord_next_item_lem :
      (c : Coord)
      → IsPlaced node c
      → c.between ≢ empty_node
      → coord_next_item node c ≡ next_item_of node.num_items c.item_pos c.between
  coord_next_item_lem c h e = next_item_at c.item_pos c.unit_pos c.between h e

  -- In a node that is not empty, coord_prev_item goes to the first unit of the item that is next on
  -- the left (from after an item, of that item) and returns 0; at the first item it goes to before
  -- that item and returns 1.
  pub coord_prev_item_lem :
      (c : Coord)
      → IsPlaced node c
      → c.between ≢ empty_node
      → coord_prev_item node c ≡ prev_item_of c.item_pos c.between
  coord_prev_item_lem c h e = prev_item_at c.item_pos c.unit_pos c.between h e

-- A coord that a shift may have left behind: one past the last item, before it or before its first
-- unit, or one past the last unit. The test of the unit position asks for the number of units of an item
-- that is not there in the second case, and must not be told 0.
abbrev pub MayBePast : Node → ℕ → ℕ → Between → Type 0
MayBePast node i u before_item = (i ≤ node.num_items) × (u ≡ 0)
MayBePast node i u before_unit =
    ((i < node.num_items) × (u ≤ node.nr_units i))
    ⊎ ((i ≡ node.num_items) × (u ≡ 0) × (0 < node.nr_units i))
MayBePast node i u b = IsPlacedAt node i u b

module _ (node : Node) (n : IsNode node) (some_items : 0 < node.num_items) where
  normalize_at :
      (i u : ℕ) (b : Between)
      → MayBePast node i u b
      → let c = coord_normalize node (record { item_pos = i; unit_pos = u; between = b }) in
        IsPlaced node c × (rank node c ≡ rank_at node i u b) × (coord_check node c ≡ true)
  unfolding coord_normalize coord_check
  normalize_at i u before_unit (inl h) = ground (arith, around node i n h.0)
  normalize_at i u before_unit (inr h) =
      ground
        (arith, n.items_fit, around node (i - 1) n, ap (units_before node) {x = i - 1 + 1} {y = i})
  normalize_at i u at_unit h = ground (arith, around node i n h.0)
  normalize_at i u after_unit h = ground (arith, around node i n h.0)
  normalize_at i u before_item h =
      ground
        (arith, n.items_fit, around node (i - 1) n, ap (units_before node) {x = i - 1 + 1} {y = i})
  normalize_at i u after_item h = ground (arith, around node i n h.0)
  normalize_at i u invalid_coord h = absurd h
  normalize_at i u empty_node h = absurd (omega arith)

  -- In a node with items, coord_normalize takes a coord that is well placed, or before a unit one past
  -- the last of its item, or before the item one past the last item, or before the first unit of that
  -- item (which coord_num_units must not say to have no units, although it is not there), to a well
  -- placed one that passes coord_check, at the same place on the line.
  pub coord_normalize_lem :
      (c : Coord)
      → MayBePast node c.item_pos c.unit_pos c.between
      → IsPlaced node (coord_normalize node c)
        × (rank node (coord_normalize node c) ≡ rank node c)
        × (coord_check node (coord_normalize node c) ≡ true)
  coord_normalize_lem c h = normalize_at c.item_pos c.unit_pos c.between h

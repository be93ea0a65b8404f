-- ===== src/Coord/Valid.antt =====
-- When a coordinate is well placed, and the line of all places of a node: place 2k + 1 is unit k,
-- place 2k the gap before it.
use reiser.Base.{ℕ, zero, suc, ◌+◌, ◌*◌, ◌^◌, ◌≤◌, ◌<◌, ◌≡◌, sym, ap, ◌∙◌, arith}
use native.Mathlib.Decide.{dec_le}
use reiser.Coord.State.{
  Node, Between, before_unit, at_unit, after_unit, before_item, after_item, invalid_coord,
  empty_node, Coord,
}

-- Positions fit their type, and no item is without units.
pub record IsNode (node : Node) : Type 0 where
  pub items_fit : node.num_items < 2 ^ 16
  pub units_fit : (i : ℕ) → i < node.num_items → (0 < node.nr_units i) × (node.nr_units i < 2 ^ 16)

abbrev pub IsPlacedAt : Node → ℕ → ℕ → Between → Type 0
IsPlacedAt node i u invalid_coord = ⊥
IsPlacedAt node i u empty_node = (node.num_items ≡ 0) × (i ≡ 0) × (u ≡ 0)
IsPlacedAt node i u before_item = (i < node.num_items) × (u ≡ 0)
IsPlacedAt node i u after_item = (i < node.num_items) × (u ≡ 0)
IsPlacedAt node i u _ = (i < node.num_items) × (u < node.nr_units i)

abbrev pub IsPlaced : Node → Coord → Type 0
IsPlaced node c = IsPlacedAt node c.item_pos c.unit_pos c.between

-- How many units there are in the items before the `n`-th.
unfoldable pub units_before : Node → ℕ → ℕ
units_before node zero = 0
units_before node (suc n) = units_before node n + node.nr_units n

unfoldable pub num_units : Node → ℕ
num_units node = units_before node node.num_items

abbrev pub rank_at : Node → ℕ → ℕ → Between → ℕ
rank_at node i u before_unit = 2 * (units_before node i + u)
rank_at node i u at_unit = 2 * (units_before node i + u) + 1
rank_at node i u after_unit = 2 * (units_before node i + u) + 2
rank_at node i u before_item = 2 * units_before node i
rank_at node i u after_item = 2 * (units_before node i + node.nr_units i)
rank_at node i u _ = 0

abbrev pub rank : Node → Coord → ℕ
rank node c = rank_at node c.item_pos c.unit_pos c.between

pub units_before-suc :
    (node : Node) (i : ℕ) → units_before node (i + 1) ≡ units_before node i + node.nr_units i
unfolding units_before
units_before-suc node i = ground arith

pub units_before-le : (node : Node) (i n : ℕ) → i ≤ n → units_before node i ≤ units_before node n
unfolding units_before
units_before-le node i zero h = let e : i ≡ 0 = omega arith in rw e (omega arith)
units_before-le node i (suc n) h = elim (dec_le i n) [
  | yes p ↦ omega (arith, units_before-le node i n p)
  | no p ↦ let e : i ≡ suc n = omega arith in rw e (omega arith)
]

-- The units of an item stand before those of the items on its right.
pub units_end-le :
    (node : Node) (i n : ℕ) → i < n → units_before node i + node.nr_units i ≤ units_before node n
units_end-le node i n h =
    omega (arith, units_before-suc node i, units_before-le node (i + 1) n (omega arith))

-- What the moves know of the item at `i`, of its neighbours, and of the whole node.
pub record Around (node : Node) (i : ℕ) : Type 0 where
  pub some_units : 0 < node.nr_units i
  pub few_units : node.nr_units i < 2 ^ 16
  pub few_items : node.num_items < 2 ^ 16
  pub inside : units_before node i + node.nr_units i ≤ num_units node
  pub right : units_before node (i + 1) ≡ units_before node i + node.nr_units i

pub around : (node : Node) (i : ℕ) → IsNode node → i < node.num_items → Around node i
unfolding num_units
around node i n h = record {
  some_units = (n.units_fit i h).0;
  few_units = (n.units_fit i h).1;
  few_items = n.items_fit;
  inside = units_end-le node i node.num_items h;
  right = units_before-suc node i;
}

pub last_item :
    (node : Node) (i : ℕ)
    → i + 1 ≡ node.num_items
    → units_before node i + node.nr_units i ≡ num_units node
unfolding num_units
last_item node i e = sym (units_before-suc node i) ∙ ap (units_before node) e

-- ===== src/Coord.antt =====
-- Coordinates in a node (coord.c, coord.h): an item, a unit of it, and a place at, before or after.
pub mod State
pub mod Init
pub mod Step
pub mod Valid
pub mod Moves
pub mod Compare
pub mod Order
pub mod Walk
pub mod Items

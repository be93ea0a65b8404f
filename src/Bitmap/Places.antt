-- ===== src/Bitmap/Places.antt =====
-- Block numbers as places in bitmaps: what holds of one bitmap holds of the blocks it stands for.
use reiser.Base.{ℕ, ◌+◌, ◌*◌, ◌/◌, ◌%◌, ◌≤◌, ◌<◌, ◌≡◌, arith}

pub place-other : (q i r bits : ℕ) → q < i → r < bits → q * bits + r < i * bits
place-other q i r bits h g = grind arith

pub div-place : (i o bits : ℕ) → o < bits → (i * bits + o) / bits ≡ i
div-place i o bits h = grind arith

pub mod-place : (i o bits : ℕ) → o < bits → (i * bits + o) % bits ≡ o
mod-place i o bits h = grind arith

pub place_of : (b bits : ℕ) → 0 < bits → b ≡ b / bits * bits + b % bits
place_of b bits h = grind arith

-- The bitmaps of two blocks stand in the order of the blocks.
pub div-le : (a b n : ℕ) → 0 < n → a ≤ b → a / n ≤ b / n
div-le a b n h l = grind arith

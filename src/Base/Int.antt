-- ===== src/Base/Int.antt =====
-- A signed counter: an `int` that only goes up and down by one, far from its bounds.
use Prim.Native.Nat.{ℕ, zero, suc}

-- `negsuc n` is -(n + 1).
pub data ℤ : Type 0 where
  pos : ℕ → ℤ
  negsuc : ℕ → ℤ

abbrev pub suc_ℤ : ℤ → ℤ
suc_ℤ (pos n) = pos (suc n)
suc_ℤ (negsuc zero) = pos zero
suc_ℤ (negsuc (suc n)) = negsuc n

abbrev pub pred_ℤ : ℤ → ℤ
pred_ℤ (pos zero) = negsuc zero
pred_ℤ (pos (suc n)) = pos n
pred_ℤ (negsuc n) = negsuc (suc n)

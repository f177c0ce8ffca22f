-- ===== src/Js/Number/Bounds.antt =====
-- Rounding and clamping.
use prox_back.Prelude.{ℕ, ◌≤◌, ◌≡◌, arith, pos, negsuc, ℤ}
use prox_back.Js.Number.{round, clamp}

-- A clamped number lies between its bounds.
pub clamp_bounds : (lo hi : ℕ) (z : ℤ) → lo ≤ hi → (lo ≤ clamp lo hi z) × (clamp lo hi z ≤ hi)
unfolding clamp
clamp_bounds lo hi (pos n) h = omega arith
clamp_bounds lo hi (negsuc n) h = omega arith

-- Rounding and clamping leave a whole number within the bounds alone.
pub clamp-round_whole : (lo hi n : ℕ) → lo ≤ n → n ≤ hi → clamp lo hi (round (pos n) 0) ≡ n
unfolding clamp round
clamp-round_whole lo hi n h k = omega arith

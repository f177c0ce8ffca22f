-- ===== src/Prelude/Tables.antt =====
-- Facts about small numbers by evaluation.
use Prim.Native.Nat.{ℕ, zero, suc, ◌<◌}
use mathlib.Core.Path.{◌≡◌}
use mathlib.Core.Bool.{Bool, true, ◌&&◌}
use native.Mathlib.Omega.{arith}

-- A test that is passed by every number under a bound.
unfoldable pub passes_under : ℕ → (ℕ → Bool) → Bool
passes_under zero test = true
passes_under (suc bound) test = passes_under bound test && test bound

pub passes_under-at :
    (k bound : ℕ) → k < bound → (test : ℕ → Bool) → passes_under bound test ≡ true → test k ≡ true
unfolding passes_under
passes_under-at k zero small test h = absurd (omega arith)
passes_under-at k (suc bound) small test h =
    ground (arith, (λ (s : k < bound). passes_under-at k bound s test))

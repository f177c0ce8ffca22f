-- ===== src/Js/Array/Membership.antt =====
-- `includes` and membership.
use prox_back.Prelude.{ℕ, ◌≡◌, ◌↔◌, ◌⊎◌, true, List, [], ◌∷◌, arith}
use prox_back.Js.Array.{includes}

abbrev pub Contains : ℕ → List ℕ → Type 0
Contains x [] = ⊥
Contains x (y ∷ ys) = (x ≡ y) ⊎ Contains x ys

pub includes_iff : (x : ℕ) (xs : List ℕ) → (includes x xs ≡ true) ↔ Contains x xs
includes_iff x [] = ((λ e. cc), λ h. absurd h)
includes_iff x (y ∷ ys) = ground (arith, includes_iff x ys)

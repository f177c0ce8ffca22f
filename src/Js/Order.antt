-- ===== src/Js/Order.antt =====
-- `list.sort(compare)`: a stable sort.
pub mod Kept
pub mod Weighted
use prox_back.Prelude.{Bool, true, false, List, [], ◌∷◌, if◌then◌else◌}

module _ {ℓ} {A : Type ℓ} where
  -- `x` in front of the first element that it need not follow.
  unfoldable pub insert_by : (A → A → Bool) → A → List A → List A
  insert_by follows x [] = x ∷ []
  insert_by follows x (y ∷ ys) =
      let rest = insert_by follows x ys in if follows x y then y ∷ rest else x ∷ y ∷ ys

  -- `follows a b` is `compare(a, b) > 0`; of equal elements the first stays in front. What a
  -- comparison that is no order does to the list is left to the engine in the language.
  unfoldable pub sort_by : (A → A → Bool) → List A → List A
  unfolding insert_by
  sort_by follows [] = []
  sort_by follows (x ∷ xs) = insert_by follows x (sort_by follows xs)

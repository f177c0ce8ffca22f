-- ===== src/Js/Order/Weighted.antt =====
-- The order that a sort makes when the comparison compares a weight first.
use prox_back.Prelude.{
  ℕ, ◌≤◌, ◌≡◌, Bool, true, false, List, [], ◌∷◌, Bool-cases, inl, inr, All, arith,
}
use prox_back.Js.Order.{insert_by, sort_by}
use prox_back.Js.Order.Kept.{All-insert_by}

module _ {A : Type 0} (weight : A → ℕ) where
  -- No element weighs more than one behind it.
  abbrev pub Weighted : List A → Type 0
  Weighted [] = Unit
  Weighted (x ∷ xs) = All (λ y. weight x ≤ weight y) xs × Weighted xs

  All-le_trans :
      (x y : A) (ys : List A)
      → weight x ≤ weight y
      → All (λ z. weight y ≤ weight z) ys
      → All (λ z. weight x ≤ weight z) ys
  All-le_trans x y [] h k = tt
  All-le_trans x y (z ∷ zs) h k = (omega arith, All-le_trans x y zs h k.1)

  module _ (follows : A → A → Bool) (heavier : (a b : A) → follows a b ≡ true → weight b ≤ weight a)
      (lighter : (a b : A) → follows a b ≡ false → weight a ≤ weight b) where
    insert_by-Weighted : (x : A) (xs : List A) → Weighted xs → Weighted (insert_by follows x xs)
    unfolding insert_by
    insert_by-Weighted x [] h = (tt, tt)
    insert_by-Weighted x (y ∷ ys) h = elim (Bool-cases (follows x y)) [
      | inl e ↦ rw e (
        All-insert_by follows (λ z. weight y ≤ weight z) x ys (heavier x y e) h.0,
        insert_by-Weighted x ys h.1,
      )
      | inr e ↦ rw e ((lighter x y e, All-le_trans x y ys (lighter x y e) h.0), h)
    ]

    pub sort_by-Weighted : (xs : List A) → Weighted (sort_by follows xs)
    unfolding sort_by
    sort_by-Weighted [] = tt
    sort_by-Weighted (x ∷ xs) = insert_by-Weighted x (sort_by follows xs) (sort_by-Weighted xs)

-- ===== src/Js/Order/Kept.antt =====
-- What a sort keeps, and the order that it makes.
use prox_back.Prelude.{
  ℕ, ◌+◌, ◌≡◌, refl, Bool, List, [], ◌∷◌, Bool-cases, inl, inr, All, Among, sum_of, arith,
}
use prox_back.Js.Order.{insert_by, sort_by}

module _ {A : Type 0} (follows : A → A → Bool) where
  Among-insert_here : (x : A) (xs : List A) → Among x (insert_by follows x xs)
  unfolding insert_by
  Among-insert_here x [] = inl refl
  Among-insert_here x (y ∷ ys) = elim (Bool-cases (follows x y)) [
    | inl e ↦ rw e (inr (Among-insert_here x ys))
    | inr e ↦ rw e (inl refl)
  ]

  Among-insert_by : (x z : A) (xs : List A) → Among z xs → Among z (insert_by follows x xs)
  unfolding insert_by
  Among-insert_by x z [] h = absurd h
  Among-insert_by x z (y ∷ ys) h = elim (Bool-cases (follows x y)) [
    | inl e ↦ rw e (later h (Among-insert_by x z ys))
    | inr e ↦ rw e (inr h)
  ]
    where
      later :
          Among z (y ∷ ys)
          → (Among z ys → Among z (insert_by follows x ys))
          → Among z (y ∷ insert_by follows x ys)
      later (inl k) f = inl k
      later (inr k) f = inr (f k)

  pub Among-sort_by : (z : A) (xs : List A) → Among z xs → Among z (sort_by follows xs)
  unfolding sort_by
  Among-sort_by z [] h = absurd h
  Among-sort_by z (x ∷ xs) (inl h) = rw h (Among-insert_here x (sort_by follows xs))
  Among-sort_by z (x ∷ xs) (inr h) = Among-insert_by x z (sort_by follows xs) (Among-sort_by z xs h)

  -- A sum over the list, and so the number of elements that pass a test, stays the same.
  sum_of-insert_by :
      (f : A → ℕ) (x : A) (xs : List A) → sum_of f (insert_by follows x xs) ≡ f x + sum_of f xs
  unfolding insert_by
  sum_of-insert_by f x [] = refl
  sum_of-insert_by f x (y ∷ ys) = elim (Bool-cases (follows x y)) [
    | inl e ↦ rw (e, sum_of-insert_by f x ys) (omega arith)
    | inr e ↦ rw e refl
  ]

  pub sum_of-sort_by : (f : A → ℕ) (xs : List A) → sum_of f (sort_by follows xs) ≡ sum_of f xs
  unfolding sort_by
  sum_of-sort_by f [] = refl
  sum_of-sort_by f (x ∷ xs) =
      rw (sum_of-insert_by f x (sort_by follows xs), sum_of-sort_by f xs) refl

  module _ (P : A → Type 0) where
    pub All-insert_by : (x : A) (xs : List A) → P x → All P xs → All P (insert_by follows x xs)
    unfolding insert_by
    All-insert_by x [] p h = (p, tt)
    All-insert_by x (y ∷ ys) p h = elim (Bool-cases (follows x y)) [
      | inl e ↦ rw e (h.0, All-insert_by x ys p h.1)
      | inr e ↦ rw e (p, h)
    ]

    pub All-sort_by : (xs : List A) → All P xs → All P (sort_by follows xs)
    unfolding sort_by
    All-sort_by [] h = tt
    All-sort_by (x ∷ xs) h = All-insert_by x (sort_by follows xs) h.0 (All-sort_by xs h.1)

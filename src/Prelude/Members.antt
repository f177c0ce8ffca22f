-- ===== src/Prelude/Members.antt =====
-- Members of a list, sums and counts over it.
use Prim.Native.Nat.{ℕ, ◌+◌}
use mathlib.Core.Path.{◌≡◌, refl, ap, sym, ◌∙◌}
use mathlib.Core.Logic.{◌⊎◌, inl, inr}
use mathlib.Core.Bool.{Bool, true}
use mathlib.Core.List.{List, [], ◌∷◌}
use native.Mathlib.Omega.{arith}
use prox_back.Prelude.Tests.{if◌then◌else◌, Bool-cases}
use prox_back.Prelude.Lists.{length, keep, All}

module _ {A : Type 0} where
  -- A predicate by recursion, like `All`.
  abbrev pub Among : A → List A → Type 0
  Among x [] = ⊥
  Among x (y ∷ ys) = (x ≡ y) ⊎ Among x ys

  -- `list.reduce((sum, x) => sum + f(x), 0)`.
  abbrev pub sum_of : (A → ℕ) → List A → ℕ
  sum_of f [] = 0
  sum_of f (x ∷ xs) = f x + sum_of f xs

  -- `list.filter(p).length`.
  abbrev pub count_of : (A → Bool) → List A → ℕ
  count_of p = sum_of (λ x. if p x then 1 else 0)

  pub length-keep : (p : A → Bool) (xs : List A) → length (keep p xs) ≡ count_of p xs
  length-keep p [] = refl
  length-keep p (x ∷ xs) = elim (Bool-cases (p x)) [
    | inl e ↦ rw (e, length-keep p xs) (omega arith)
    | inr e ↦ rw (e, length-keep p xs) (omega arith)
  ]

  pub Among-keep :
      (p : A → Bool) (x : A) (xs : List A) → Among x xs → p x ≡ true → Among x (keep p xs)
  Among-keep p x [] h k = absurd h
  Among-keep p x (y ∷ ys) (inl h) k = rw (sym h, k) (inl refl)
  Among-keep p x (y ∷ ys) (inr h) k = elim (Bool-cases (p y)) [
    | inl e ↦ rw e (inr (Among-keep p x ys h k))
    | inr e ↦ rw e (Among-keep p x ys h k)
  ]

  pub member_of_kept :
      (p : A → Bool) (x : A) (xs : List A) → Among x (keep p xs) → Among x xs × (p x ≡ true)
  member_of_kept p x [] h = absurd h
  member_of_kept p x (y ∷ ys) h = elim (Bool-cases (p y)) [
    | inl e ↦ kept e (rw e at h) (member_of_kept p x ys)
    | inr e ↦ dropped (member_of_kept p x ys (rw e at h))
  ]
    where
      kept :
          p y ≡ true
          → Among x (y ∷ keep p ys)
          → (Among x (keep p ys) → Among x ys × (p x ≡ true))
          → Among x (y ∷ ys) × (p x ≡ true)
      kept e (inl h) f = (inl h, ap p h ∙ e)
      kept e (inr h) f = (inr (f h).0, (f h).1)

      dropped : Among x ys × (p x ≡ true) → Among x (y ∷ ys) × (p x ≡ true)
      dropped (h, k) = (inr h, k)

  pub All_of_Among : (P : A → Type 0) (x : A) (xs : List A) → All P xs → Among x xs → P x
  All_of_Among P x [] h k = absurd k
  All_of_Among P x (y ∷ ys) h (inl e) = rw e h.0
  All_of_Among P x (y ∷ ys) h (inr k) = All_of_Among P x ys h.1 k

  pub All-within : (xs ys : List A) → ((x : A) → Among x xs → Among x ys) → All (λ x. Among x ys) xs
  All-within [] ys h = tt
  All-within (x ∷ xs) ys h = (h x (inl refl), All-within xs ys (λ z k. h z (inr k)))

  -- Each element of a list is one of its members.
  pub All-Among : (xs : List A) → All (λ x. Among x xs) xs
  All-Among xs = All-within xs xs (λ x h. h)

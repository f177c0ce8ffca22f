-- ===== src/Js/Array.antt =====
-- `includes`, `[...new Set(list)]` and `sort((a, b) => a - b)` on lists of natural numbers.
pub mod Ranges
pub mod Sorting
pub mod Membership
use prox_back.Prelude.{
  ℕ, Bool, true, false, not, List, [], ◌∷◌, ◌||◌, ◌==◌, leb, if◌then◌else◌, any, keep,
}

-- `list.includes(x)`.
abbrev pub includes : ℕ → List ℕ → Bool
includes x = any (λ y. y == x)

-- `list.filter((item) => item !== x)`.
abbrev pub without : ℕ → List ℕ → List ℕ
without x = keep (λ y. not (y == x))

-- `[...new Set(list)]`: the first occurrence of each element, in order.
unfoldable pub unique : List ℕ → List ℕ
unique [] = []
unique (x ∷ xs) = x ∷ without x (unique xs)

insert : ℕ → List ℕ → List ℕ
insert x [] = x ∷ []
insert x (y ∷ ys) = let rest = insert x ys in if leb x y then x ∷ y ∷ ys else y ∷ rest

-- `[...list].sort((a, b) => a - b)`. Equal numbers cannot be told apart, so that any sort serves.
unfoldable pub sort : List ℕ → List ℕ
unfolding insert
sort [] = []
sort (x ∷ xs) = insert x (sort xs)

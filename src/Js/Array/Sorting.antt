-- ===== src/Js/Array/Sorting.antt =====
-- Sorting, removing and adding on lists of natural numbers.
use prox_back.Prelude.{
  false, ℕ, ◌<◌, ◌≡◌, refl, ◌≢◌, ap, true, List, [], ◌∷◌, ◌++◌, arith, inl, inr, All, Bool-cases,
  leb,
}
use prox_back.Js.Array.{includes, without, unique, insert, sort}

-- Each element is less than all that follow it.
abbrev pub Ascending : List ℕ → Type 0
Ascending [] = Unit
Ascending (x ∷ xs) = All (λ y. x < y) xs × Ascending xs

-- No element occurs twice.
abbrev pub Distinct : List ℕ → Type 0
Distinct [] = Unit
Distinct (x ∷ xs) = All (λ y. x ≢ y) xs × Distinct xs

module _ (P : ℕ → Type 0) where
  pub All-without : (x : ℕ) (xs : List ℕ) → All P xs → All P (without x xs)
  All-without x [] h = tt
  All-without x (y ∷ ys) h = ground (arith, All-without x ys h.1)

  pub All-unique : (xs : List ℕ) → All P xs → All P (unique xs)
  unfolding unique
  All-unique [] h = tt
  All-unique (x ∷ xs) h = (h.0, All-without x (unique xs) (All-unique xs h.1))

  All-insert : (x : ℕ) (xs : List ℕ) → P x → All P xs → All P (insert x xs)
  unfolding insert
  All-insert x [] p h = (p, tt)
  All-insert x (y ∷ ys) p h = ground (arith, All-insert x ys p h.1)

  pub All-sort : (xs : List ℕ) → All P xs → All P (sort xs)
  unfolding sort
  All-sort [] h = tt
  All-sort (x ∷ xs) h = All-insert x (sort xs) h.0 (All-sort xs h.1)

without-fresh : (x : ℕ) (xs : List ℕ) → All (λ y. x ≢ y) (without x xs)
without-fresh x [] = tt
without-fresh x (y ∷ ys) = ground (arith, without-fresh x ys)

without-Distinct : (x : ℕ) (xs : List ℕ) → Distinct xs → Distinct (without x xs)
without-Distinct x [] h = tt
without-Distinct x (y ∷ ys) h =
    ground (arith, without-Distinct x ys h.1, All-without (λ z. y ≢ z) x ys h.0)

pub unique-Distinct : (xs : List ℕ) → Distinct (unique xs)
unfolding unique
unique-Distinct [] = tt
unique-Distinct (x ∷ xs) =
    (without-fresh x (unique xs), without-Distinct x (unique xs) (unique-Distinct xs))

All-lt_trans : (x y : ℕ) (ys : List ℕ) → x < y → All (λ z. y < z) ys → All (λ z. x < z) ys
All-lt_trans x y [] h k = tt
All-lt_trans x y (z ∷ zs) h k = (omega arith, All-lt_trans x y zs h k.1)

insert-Ascending :
    (x : ℕ) (xs : List ℕ) → All (λ y. x ≢ y) xs → Ascending xs → Ascending (insert x xs)
unfolding insert
insert-Ascending x [] f h = (tt, tt)
insert-Ascending x (y ∷ ys) f h = elim (Bool-cases (leb x y)) [
  | inl le ↦ rw le ((strict le, All-lt_trans x y ys (strict le) h.0), h)
  | inr gt ↦ rw gt (All-insert (λ z. y < z) x ys (ground arith) h.0, insert-Ascending x ys f.1 h.1)
]
  where
    strict : leb x y ≡ true → x < y
    strict le = ground (arith, f.0)

pub sort-Ascending : (xs : List ℕ) → Distinct xs → Ascending (sort xs)
unfolding sort
sort-Ascending [] h = tt
sort-Ascending (x ∷ xs) h =
    insert-Ascending x (sort xs) (All-sort (λ y. x ≢ y) xs h.0) (sort-Ascending xs h.1)

-- What is in order stays as it is.
without-id : (x : ℕ) (xs : List ℕ) → All (λ y. x < y) xs → without x xs ≡ xs
without-id x [] h = refl
without-id x (y ∷ ys) h = ground (arith, without-id x ys h.1)

pub unique_of_Ascending : (xs : List ℕ) → Ascending xs → unique xs ≡ xs
unfolding unique
unique_of_Ascending [] h = refl
unique_of_Ascending (x ∷ xs) h = rw (unique_of_Ascending xs h.1) (ap (x ∷◌) (without-id x xs h.0))

insert_least : (x : ℕ) (xs : List ℕ) → All (λ y. x < y) xs → insert x xs ≡ x ∷ xs
unfolding insert
insert_least x [] h = refl
insert_least x (y ∷ ys) h = ground arith

pub sort_of_Ascending : (xs : List ℕ) → Ascending xs → sort xs ≡ xs
unfolding sort
sort_of_Ascending [] h = refl
sort_of_Ascending (x ∷ xs) h = rw (sort_of_Ascending xs h.1) (insert_least x xs h.0)

insert-ne-nil : (x : ℕ) (xs : List ℕ) → insert x xs ≢ []
unfolding insert
insert-ne-nil x [] = cc
insert-ne-nil x (y ∷ ys) = ground arith

pub sort-ne-nil : (x : ℕ) (xs : List ℕ) → sort (x ∷ xs) ≢ []
unfolding sort
sort-ne-nil x xs = insert-ne-nil x (sort xs)

pub without-Ascending : (x : ℕ) (xs : List ℕ) → Ascending xs → Ascending (without x xs)
without-Ascending x [] h = tt
without-Ascending x (y ∷ ys) h =
    ground (arith, without-Ascending x ys h.1, All-without (λ z. y < z) x ys h.0)

fresh_snoc :
    (x y : ℕ) (ys : List ℕ) → All (λ z. y < z) ys → y ≢ x → All (λ z. y ≢ z) (ys ++ (x ∷ []))
fresh_snoc x y [] h ne = (ne, tt)
fresh_snoc x y (z ∷ zs) h ne = ((λ e. omega arith), fresh_snoc x y zs h.1 ne)

-- An element that a list in order does not include keeps it distinct.
pub snoc-Distinct :
    (x : ℕ) (xs : List ℕ) → includes x xs ≡ false → Ascending xs → Distinct (xs ++ (x ∷ []))
snoc-Distinct x [] e h = (tt, tt)
snoc-Distinct x (y ∷ ys) e h =
    (fresh_snoc x y ys h.0 (ground arith), snoc-Distinct x ys (ground arith) h.1)

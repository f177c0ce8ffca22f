-- ===== src/Js/Array/Ranges.antt =====
-- Ascending lists of numbers, as sets and as ranges.
use prox_back.Prelude.{
  ℕ, zero, suc, ◌+◌, ◌<◌, ◌≤◌, ◌≡◌, ◌↔◌, refl, sym, subst, List, [], ◌∷◌, length, leb, arith, inl,
  inr, All, Bool-cases,
}
use prox_back.Js.Array.Sorting.{Ascending}
use prox_back.Js.Array.Membership.{Contains}

All-Contains : (x y : ℕ) (ys : List ℕ) → All (λ z. x < z) ys → Contains y ys → x < y
All-Contains x y [] h c = absurd c
All-Contains x y (z ∷ ys) h (inl e) = rw e h.0
All-Contains x y (z ∷ ys) h (inr c) = All-Contains x y ys h.1 c

-- Ascending lists with the same elements are equal.
heads_of_same :
    (x y : ℕ) (xs ys : List ℕ)
    → Ascending (x ∷ xs)
    → Ascending (y ∷ ys)
    → Contains x (y ∷ ys)
    → Contains y (x ∷ xs)
    → x ≡ y
heads_of_same x y xs ys a b (inl e) k = e
heads_of_same x y xs ys a b (inr h) (inl e) = sym e
heads_of_same x y xs ys a b (inr h) (inr k) =
    omega (arith, All-Contains y x ys b.0 h, All-Contains x y xs a.0 k)

same_and_less : (x z : ℕ) → z ≡ x → x < z → ⊥
same_and_less x z e l = omega (arith, e, l)

tail_of_same :
    (x z : ℕ) (xs ys : List ℕ)
    → All (λ w. x < w) xs
    → (Contains z (x ∷ xs) → Contains z (x ∷ ys))
    → Contains z xs
    → Contains z ys
tail_of_same x z xs ys a h c = elim (h (inr c)) [
  | inl e ↦ absurd (same_and_less x z e (All-Contains x z xs a c))
  | inr k ↦ k
]

pub eq_of_same_elements :
    (xs ys : List ℕ)
    → Ascending xs
    → Ascending ys
    → ((z : ℕ) → Contains z xs ↔ Contains z ys)
    → xs ≡ ys
eq_of_same_elements [] [] a b h = refl
eq_of_same_elements [] (y ∷ ys) a b h = absurd ((h y).1 (inl refl))
eq_of_same_elements (x ∷ xs) [] a b h = absurd ((h x).0 (inl refl))
eq_of_same_elements (x ∷ xs) (y ∷ ys) a b h =
    let e : x ≡ y = heads_of_same x y xs ys a b ((h x).0 (inl refl)) ((h y).1 (inl refl)) in
    let b' : Ascending (x ∷ ys) = subst (λ w. Ascending (w ∷ ys)) (sym e) b in
    let h' : (z : ℕ) → Contains z (x ∷ xs) ↔ Contains z (x ∷ ys) =
      subst (λ w. (z : ℕ) → Contains z (x ∷ xs) ↔ Contains z (w ∷ ys)) (sym e) h in
    let rest : xs ≡ ys =
      eq_of_same_elements xs ys a.1 b.1
        (λ z. (tail_of_same x z xs ys a.0 (h' z).0, tail_of_same x z ys xs b'.0 (h' z).1)) in
    λ i. e i ∷ rest i

-- A list of as many numbers of a range as the range has, in order, is the range.
abbrev pub upto : ℕ → ℕ → List ℕ
upto low zero = []
upto low (suc n) = low ∷ upto (suc low) n

All-suc : (low x : ℕ) (xs : List ℕ) → low ≤ x → All (λ y. x < y) xs → All (λ y. suc low ≤ y) xs
All-suc low x [] l h = tt
All-suc low x (y ∷ ys) l h = (omega arith, All-suc low x ys l h.1)

-- An ascending list within a range is no longer than the range.
length_of_Ascending :
    (low n high : ℕ) (xs : List ℕ)
    → low + n ≡ high
    → Ascending xs
    → All (λ y. low ≤ y) xs
    → All (λ y. y < high) xs
    → length xs ≤ n
length_of_Ascending low n high [] r a l h = omega arith
length_of_Ascending low zero high (x ∷ xs) r a l h = omega (arith, l.0, h.0)
length_of_Ascending low (suc n) high (x ∷ xs) r a l h =
    let k : length xs ≤ n =
      length_of_Ascending (suc low) n high xs (omega arith) a.1 (All-suc low x xs l.0 a.0) h.1 in
    omega (arith, k)

nat_clash : (n : ℕ) → suc n ≡ 0 → ⊥
nat_clash n e = omega (arith, e)

first_of_full :
    (low n high x : ℕ) (xs : List ℕ)
    → low + suc n ≡ high
    → low ≤ x
    → x < high
    → Ascending (x ∷ xs)
    → All (λ y. y < high) xs
    → length xs ≡ n
    → x ≡ low
first_of_full low zero high x xs r l h a b e = omega arith
first_of_full low (suc n) high x xs r l h a b e = elim (Bool-cases (leb x low)) [
  | inl c ↦ ground arith
  | inr c ↦
      let above : suc low ≤ x = ground arith in
      let k : length xs ≤ n =
        length_of_Ascending (suc (suc low)) n high xs (omega arith) a.1
          (All-suc (suc low) x xs above a.0) b in
      omega (arith, k, e)
]

pub upto_of_full :
    (low n high : ℕ) (xs : List ℕ)
    → low + n ≡ high
    → Ascending xs
    → All (λ y. low ≤ y) xs
    → All (λ y. y < high) xs
    → length xs ≡ n
    → xs ≡ upto low n
upto_of_full low zero high [] r a l h e = refl
upto_of_full low (suc n) high [] r a l h e = absurd (nat_clash n (sym e))
upto_of_full low zero high (x ∷ xs) r a l h e = absurd (nat_clash (length xs) e)
upto_of_full low (suc n) high (x ∷ xs) r a l h e =
    let above : All (λ y. suc low ≤ y) xs = All-suc low x xs l.0 a.0 in
    let rest : xs ≡ upto (suc low) n =
      upto_of_full (suc low) n high xs (omega arith) a.1 above h.1 (omega (arith, e)) in
    let first : x ≡ low = first_of_full low n high x xs r l.0 h.0 a h.1 (omega (arith, e)) in
    λ i. first i ∷ rest i

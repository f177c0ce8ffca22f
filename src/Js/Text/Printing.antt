-- ===== src/Js/Text/Printing.antt =====
-- The first code unit of a printed number and of a joined text.
use prox_back.Prelude.{
  ℕ, zero, suc, ◌/◌, ◌≤◌, ◌≡◌, refl, sym, List, [], ◌∷◌, ◌++◌, ltb, arith, inl, inr, Bool-cases,
}
use mathlib.Core.List.{append-nil}
use prox_back.Js.Text.{Text, join, digits_from, print_nat}

abbrev pub StartsWithDigit : Text → Type 0
StartsWithDigit [] = ⊥
StartsWithDigit (c ∷ s) = c ≤ 57

digits_from-StartsWithDigit :
    (fuel n : ℕ) (tail : Text) → StartsWithDigit tail → StartsWithDigit (digits_from fuel n tail)
unfolding digits_from
digits_from-StartsWithDigit zero n tail h = h
digits_from-StartsWithDigit (suc fuel) n tail h = elim (Bool-cases (ltb n 10)) [
  | inl e ↦ rw e (omega arith)
  | inr e ↦ rw e (digits_from-StartsWithDigit fuel (n / 10) _ (omega arith))
]

pub print_nat-StartsWithDigit : (n : ℕ) → StartsWithDigit (print_nat n)
unfolding print_nat
print_nat-StartsWithDigit n = elim (Bool-cases (ltb n 10)) [
  | inl e ↦ rw e (omega arith)
  | inr e ↦ rw e (digits_from-StartsWithDigit n (n / 10) _ (omega arith))
]

pub StartsWithDigit-append : (s t : Text) → StartsWithDigit s → StartsWithDigit (s ++ t)
StartsWithDigit-append [] t h = absurd h
StartsWithDigit-append (c ∷ s) t h = h

pub join-cons : (sep x : Text) (xs : List Text) → (t : Text) × (join sep (x ∷ xs) ≡ x ++ t)
unfolding join
join-cons sep x [] = ([], sym (append-nil x))
join-cons sep x (y ∷ ys) = (_, refl)

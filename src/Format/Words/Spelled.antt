-- ===== src/Format/Words/Spelled.antt =====
-- `describeSchedule` of web/src/lib/format.ts: the weekdays that are joined by commas.
use prox_back.Prelude.{
  ℕ, ◌+◌, ◌≤◌, ◌≡◌, ◌↔◌, refl, sym, ap, subst, ◌∙◌, true, List, [], ◌∷◌, ltb, ◌%◌, ◌==◌, length,
  map, arith, All, both_of_and,
}
use prox_back.Js.Text.{Text, codes, join, print_nat}
use prox_back.Js.Text.Equality.{eq_of_same_text, same_text_refl}
use prox_back.Format.Words.{are_days}

print_nat-digit : (d : ℕ) → d ≤ 6 → print_nat d ≡ (48 + d) ∷ []
unfolding print_nat
print_nat-digit d h =
    let small : ltb d 10 ≡ true = ground arith in
    let last : d % 10 ≡ d = omega arith in rw (small, last) refl

-- Digits with commas between them.
abbrev pub spelled : List ℕ → Text
spelled [] = []
spelled (x ∷ []) = (48 + x) ∷ []
spelled (x ∷ y ∷ ys) = (48 + x) ∷ (44 ∷ spelled (y ∷ ys))

join-digits : (xs : List ℕ) → All (λ d. d ≤ 6) xs → join (codes ",") (map print_nat xs) ≡ spelled xs
unfolding join
join-digits [] h = refl
join-digits (x ∷ []) h = print_nat-digit x h.0
join-digits (x ∷ y ∷ ys) h = rw (print_nat-digit x h.0, join-digits (y ∷ ys) h.1) refl

abbrev pub first_of : Text → ℕ
first_of [] = 0
first_of (c ∷ s) = c

abbrev after_two : Text → Text
after_two (c ∷ d ∷ s) = s
after_two _ = []

eq_of_first : (x y : ℕ) → 48 + x ≡ 48 + y → x ≡ y
eq_of_first x y e = omega (arith, e)

eq_of_spelled : (xs ys : List ℕ) → spelled xs ≡ spelled ys → xs ≡ ys
eq_of_spelled [] [] e = refl
eq_of_spelled [] (y ∷ []) e = cc
eq_of_spelled [] (y ∷ z ∷ ys) e = cc
eq_of_spelled (x ∷ []) [] e = cc
eq_of_spelled (x ∷ []) (y ∷ []) e = λ i. eq_of_first x y (ap first_of e) i ∷ []
eq_of_spelled (x ∷ []) (y ∷ z ∷ ys) e = cc
eq_of_spelled (x ∷ w ∷ xs) [] e = cc
eq_of_spelled (x ∷ w ∷ xs) (y ∷ []) e = cc
eq_of_spelled (x ∷ w ∷ xs) (y ∷ z ∷ ys) e =
    λ i. eq_of_first x y (ap first_of e) i ∷ eq_of_spelled (w ∷ xs) (z ∷ ys) (ap after_two e) i

-- The test of the code on a list of weekdays in order.
pub are_days_iff :
    (days known : List ℕ) (text : Text)
    → All (λ d. d ≤ 6) days
    → text ≡ spelled known
    → (are_days (length known) text days ≡ true) ↔ (days ≡ known)
unfolding are_days
are_days_iff days known text h e = (
  (λ t.
      let texts = both_of_and (length days == length known) _ t in
      eq_of_spelled days known (sym (join-digits days h) ∙ (eq_of_same_text _ _ texts.1 ∙ e))),
  (λ k.
      rw (k, join-digits known (subst (All (λ d. d ≤ 6)) k h), e, same_text_refl (spelled known))
        (ground arith)),
)

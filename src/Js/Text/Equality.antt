-- ===== src/Js/Text/Equality.antt =====
-- `===` on texts and equality.
use prox_back.Prelude.{◌≡◌, refl, ◌↔◌, true, [], ◌∷◌, arith}
use prox_back.Js.Text.{Text, same_text}

pub eq_of_same_text : (s t : Text) → same_text s t ≡ true → s ≡ t
unfolding same_text
eq_of_same_text [] [] h = refl
eq_of_same_text [] (d ∷ t) h = cc
eq_of_same_text (c ∷ s) [] h = cc
eq_of_same_text (c ∷ s) (d ∷ t) h = ground (arith, eq_of_same_text s t)

pub same_text_refl : (s : Text) → same_text s s ≡ true
unfolding same_text
same_text_refl [] = refl
same_text_refl (c ∷ s) = ground (arith, same_text_refl s)

pub same_text_iff : (s t : Text) → (same_text s t ≡ true) ↔ (s ≡ t)
same_text_iff s t = (eq_of_same_text s t, λ e. rw e (same_text_refl t))

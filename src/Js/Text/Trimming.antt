-- ===== src/Js/Text/Trimming.antt =====
-- `trim`, and texts that begin or end in ink.
use prox_back.Prelude.{ℕ, ◌++◌, ◌≡◌, refl, ◌∙◌, ap, false, [], ◌∷◌, arith, inl, inr, Bool-cases}
use prox_back.Js.Text.{Text, is_space, trim_start, trim_end, trim}

-- The head, if there is one, is no white space.
abbrev pub StartsInk : Text → Type 0
StartsInk [] = Unit
StartsInk (c ∷ s) = is_space c ≡ false

trim_start-StartsInk : (s : Text) → StartsInk (trim_start s)
unfolding trim_start
trim_start-StartsInk [] = tt
trim_start-StartsInk (c ∷ s) = elim (Bool-cases (is_space c)) [
  | inl e ↦ rw e (trim_start-StartsInk s)
  | inr e ↦ rw e e
]

trim_start_of_StartsInk : (s : Text) → StartsInk s → trim_start s ≡ s
unfolding trim_start
trim_start_of_StartsInk [] h = refl
trim_start_of_StartsInk (c ∷ s) h = rw h

trim_end-StartsInk : (s : Text) → StartsInk s → StartsInk (trim_end s)
unfolding trim_end
trim_end-StartsInk [] h = tt
trim_end-StartsInk (c ∷ s) h = rw h h

trim_end_idem : (s : Text) → trim_end (trim_end s) ≡ trim_end s
unfolding trim_end
trim_end_idem [] = refl
trim_end_idem (c ∷ s) = ground (arith, trim_end_idem s)

pub trim_idem : (s : Text) → trim (trim s) ≡ trim s
unfolding trim
trim_idem s =
    ap trim_end (trim_start_of_StartsInk _ (trim_end-StartsInk _ (trim_start-StartsInk s)))
    ∙ trim_end_idem (trim_start s)

-- The last code unit, if there is one, is no white space.
abbrev pub EndsInk : Text → Type 0
EndsInk [] = Unit
EndsInk (c ∷ []) = is_space c ≡ false
EndsInk (c ∷ d ∷ s) = EndsInk (d ∷ s)

trim_end_of_EndsInk : (s : Text) → EndsInk s → trim_end s ≡ s
unfolding trim_end
trim_end_of_EndsInk [] h = refl
trim_end_of_EndsInk (c ∷ []) h = rw h
trim_end_of_EndsInk (c ∷ d ∷ s) h = ground (arith, trim_end_of_EndsInk (d ∷ s) h)

-- A text with no white space at either end is its own trim.
pub trim_of_ink : (s : Text) → StartsInk s → EndsInk s → trim s ≡ s
unfolding trim
trim_of_ink s h k = rw (trim_start_of_StartsInk s h) (trim_end_of_EndsInk s k)

pub EndsInk-append : (s : Text) (c : ℕ) (t : Text) → EndsInk (c ∷ t) → EndsInk (s ++ (c ∷ t))
EndsInk-append [] c t h = h
EndsInk-append (d ∷ []) c t h = h
EndsInk-append (d ∷ e ∷ s) c t h = EndsInk-append (e ∷ s) c t h

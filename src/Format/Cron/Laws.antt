-- ===== src/Format/Cron/Laws.antt =====
-- `isValidCron` of web/src/lib/format.ts on fields that are joined by spaces.
use prox_back.Prelude.{
  ℕ, ◌≡◌, refl, ap, ◌∙◌, sym, Bool, true, false, List, [], ◌∷◌, ◌++◌, all, length, arith,
  both_of_and, All, ◌==◌, if◌then◌else◌,
}
use mathlib.Core.List.{append-nil, append_assoc}
use prox_back.Js.Text.{Text, codes, is_space, join}
use prox_back.Js.Text.Trimming.{StartsInk, EndsInk, EndsInk-append, trim_of_ink}
use prox_back.Js.Text.Printing.{join-cons}
use prox_back.Format.Cron.{split_spaces, is_cron_code, is_cron_field, is_valid_cron}

abbrev pub IsField : Text → Type 0
IsField f = is_cron_field f ≡ true

cron_code-is_space : (c : ℕ) → is_cron_code c ≡ true → is_space c ≡ false
unfolding is_cron_code is_space
cron_code-is_space c h = ground arith

-- A run of cron characters is taken into the word in hand.
split_spaces-run :
    (gap : Bool) (word : Text) (c : ℕ) (f s : Text)
    → all is_cron_code (c ∷ f) ≡ true
    → split_spaces gap word ((c ∷ f) ++ s) ≡ split_spaces false (word ++ (c ∷ f)) s
unfolding split_spaces
split_spaces-run gap word c [] s h = rw (cron_code-is_space c (both_of_and _ _ h).0, split_spaces)
split_spaces-run gap word c (d ∷ f) s h =
    let (first, rest) = both_of_and (is_cron_code c) (all is_cron_code (d ∷ f)) h in
    rw (cron_code-is_space c first, split_spaces)
      (split_spaces-run false (word ++ (c ∷ [])) d f s rest
        ∙ ap (λ w. split_spaces false w s) (append_assoc word (c ∷ []) (d ∷ f)))

split_spaces-join :
    (gap : Bool) (f : Text) (fs : List Text)
    → All IsField (f ∷ fs)
    → split_spaces gap [] (join (codes " ") (f ∷ fs)) ≡ f ∷ fs
unfolding split_spaces join is_cron_field
split_spaces-join gap [] fs h = cc
split_spaces-join gap (c ∷ f) [] h =
    ap (split_spaces gap []) (sym (append-nil (c ∷ f))) ∙ split_spaces-run gap [] c f [] h.0
split_spaces-join gap (c ∷ f) (g ∷ gs) h =
    split_spaces-run gap [] c f (codes " " ++ join (codes " ") (g ∷ gs)) h.0
    ∙ spaced (join (codes " ") (g ∷ gs)) (split_spaces-join true g gs h.1)
  where
    spaced :
        (s : Text)
        → split_spaces true [] s ≡ g ∷ gs
        → split_spaces false (c ∷ f) (32 ∷ s) ≡ (c ∷ f) ∷ g ∷ gs
    spaced s e = unfold is_space in ap ((c ∷ f) ∷◌) e

field-EndsInk : (f : Text) → all is_cron_code f ≡ true → EndsInk f
field-EndsInk [] h = tt
field-EndsInk (c ∷ []) h = cron_code-is_space c (both_of_and _ _ h).0
field-EndsInk (c ∷ d ∷ f) h =
    field-EndsInk (d ∷ f) (both_of_and (is_cron_code c) (all is_cron_code (d ∷ f)) h).1

join-EndsInk :
    (f : Text) (fs : List Text) → All IsField (f ∷ fs) → EndsInk (join (codes " ") (f ∷ fs))
unfolding join is_cron_field
join-EndsInk f [] h = field-EndsInk f (both_of_and _ _ h.0).1
join-EndsInk f ([] ∷ gs) h = cc
join-EndsInk f ((d ∷ g) ∷ gs) h =
    EndsInk-append f 32 (join (codes " ") ((d ∷ g) ∷ gs)) (after (join-EndsInk (d ∷ g) gs h.1))
  where
    after :
        EndsInk (join (codes " ") ((d ∷ g) ∷ gs)) → EndsInk (32 ∷ join (codes " ") ((d ∷ g) ∷ gs))
    after k = let (t, e) = join-cons (codes " ") (d ∷ g) gs in rw e (rw e at k)

join-StartsInk :
    (f : Text) (fs : List Text) → All IsField (f ∷ fs) → StartsInk (join (codes " ") (f ∷ fs))
unfolding join is_cron_field
join-StartsInk [] fs h = cc
join-StartsInk (c ∷ f) [] h = cron_code-is_space c (both_of_and _ _ h.0).0
join-StartsInk (c ∷ f) (g ∷ gs) h = cron_code-is_space c (both_of_and _ _ h.0).0

all_of_All : (fs : List Text) → All IsField fs → all is_cron_field fs ≡ true
all_of_All [] h = refl
all_of_All (f ∷ fs) h = rw (h.0, all_of_All fs h.1)

-- Fields of digits, stars, commas, dashes and slashes, joined by single spaces, are a valid cron
-- expression exactly when there are five of them.
pub is_valid_cron-join :
    (f : Text) (fs : List Text)
    → All IsField (f ∷ fs)
    → is_valid_cron (join (codes " ") (f ∷ fs)) ≡ (length (f ∷ fs) == 5)
unfolding is_valid_cron
is_valid_cron-join f fs h =
    rw
      (
        trim_of_ink _ (join-StartsInk f fs h) (join-EndsInk f fs h),
        split_spaces-join false f fs h,
        all_of_All (f ∷ fs) h,
      )
      (same (length (f ∷ fs) == 5))
  where
    same : (b : Bool) → (if b then true else false) ≡ b
    same true = refl
    same false = refl

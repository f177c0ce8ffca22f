-- ===== src/TargetsPage/Posted.antt =====
-- The directory that web/src/pages/TargetsPage.tsx posts.
use prox_back.Prelude.{
  ℕ, ◌≡◌, ◌≢◌, refl, ap, subst, Bool, true, false, not, [], ◌∷◌, ◌&&◌, if◌then◌else◌, is_empty,
}
use prox_back.Js.Text.{Text, trim}
use prox_back.Js.Text.Start.{strip_end, ends_in, is_separator}
use prox_back.Forms.{posted}
use prox_back.Forms.Passed.{refuse_if-posted, body_of-posted}
use prox_back.TargetsPage.{FilesystemForm, strip_separators, is_absolute, submit_filesystem}

-- What is stripped does not end in what is stripped.
strip_end-ends_in : (p : ℕ → Bool) (s : Text) → ends_in p (strip_end p s) ≡ false
unfolding strip_end ends_in
strip_end-ends_in p [] = refl
strip_end-ends_in p (c ∷ s) = at (p c) (strip_end p s) (strip_end-ends_in p s) refl
  where
    at :
        (b : Bool) (rest : Text)
        → ends_in p rest ≡ false
        → p c ≡ b
        → ends_in p (if b && is_empty rest then [] else c ∷ rest) ≡ false
    at true [] h e = refl
    at false [] h e = e
    at true (d ∷ rest) h e = h
    at false (d ∷ rest) h e = h

strip_end_id : (p : ℕ → Bool) (s : Text) → ends_in p s ≡ false → strip_end p s ≡ s
unfolding strip_end ends_in
strip_end_id p [] h = refl
strip_end_id p (c ∷ []) h = rw h refl
strip_end_id p (c ∷ d ∷ s) h = at (p c) (strip_end p (d ∷ s)) (strip_end_id p (d ∷ s) h)
  where
    at :
        (b : Bool) (rest : Text)
        → rest ≡ d ∷ s
        → (if b && is_empty rest then [] else c ∷ rest) ≡ c ∷ d ∷ s
    at true rest e = rw e refl
    at false rest e = rw e refl

strip_separators_idem : (s : Text) → strip_separators (strip_separators s) ≡ strip_separators s
unfolding strip_separators
strip_separators_idem [] = refl
strip_separators_idem (c ∷ s) =
    ap (c ∷◌)
      (strip_end_id is_separator (strip_end is_separator s) (strip_end-ends_in is_separator s))

-- The part behind the first code does not end in a separator.
abbrev pub HasNoTail : Text → Type 0
HasNoTail [] = Unit
HasNoTail (c ∷ s) = ends_in is_separator s ≡ false

strip_separators-HasNoTail : (s : Text) → HasNoTail (strip_separators s)
unfolding strip_separators
strip_separators-HasNoTail [] = tt
strip_separators-HasNoTail (c ∷ s) = strip_end-ends_in is_separator s

true_of_not : (b : Bool) → not b ≡ false → b ≡ true
true_of_not true h = refl
true_of_not false h = absurd cc

filled : (s : Text) → is_empty s ≡ false → s ≢ []
filled [] h = absurd cc
filled (c ∷ s) h = cc

-- What is posted for a directory has a name, and a path that is absolute, ends in no separator unless
-- that is all of it, and would be left as it is by the same tidying.
pub submit_filesystem-IsTidy :
    (form body : FilesystemForm)
    → submit_filesystem form ≡ posted body
    → (body.name ≢ [])
      × (is_absolute body.path ≡ true)
      × HasNoTail body.path
      × (strip_separators body.path ≡ body.path)
unfolding submit_filesystem
submit_filesystem-IsTidy form body e =
    let (named, e1) = refuse_if-posted _ _ _ body e in
    let (given, e2) = refuse_if-posted _ _ _ body e1 in
    let (absolute, e3) = refuse_if-posted _ _ _ body e2 in
    let is_body = body_of-posted _ body e3 in
    subst
      (λ b.
        (b.name ≢ [])
        × (is_absolute b.path ≡ true)
        × HasNoTail b.path
        × (strip_separators b.path ≡ b.path))
      is_body
      (
        filled (trim form.name) named,
        true_of_not _ absolute,
        strip_separators-HasNoTail (trim form.path),
        strip_separators_idem (trim form.path),
      )

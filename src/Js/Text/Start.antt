-- ===== src/Js/Text/Start.antt =====
-- The starts and ends of texts that regular expressions look at.
use prox_back.Prelude.{
  ℕ, ◌+◌, Bool, true, false, [], ◌∷◌, ◌&&◌, ◌||◌, ◌==◌, leb, if◌then◌else◌, is_empty, map,
}
use prox_back.Js.Text.{Text, codes}

-- `s.startsWith(start)`.
unfoldable pub starts_with : Text → Text → Bool
starts_with [] s = true
starts_with (c ∷ start) [] = false
starts_with (c ∷ start) (d ∷ s) = c == d && starts_with start s

-- A letter without its case, as the flag `i` reads it.
unfoldable pub fold_case : ℕ → ℕ
fold_case c = if leb b'A' c && leb c b'Z' then c + 32 else c

-- `/^https?:\/\//i.test(s)`.
unfoldable pub is_web_url : Text → Bool
unfolding starts_with fold_case
is_web_url s =
    starts_with (codes "http://") (map fold_case s)
    || starts_with (codes "https://") (map fold_case s)

-- `s` without the run of codes that pass the test at its end.
unfoldable pub strip_end : (ℕ → Bool) → Text → Text
strip_end p [] = []
strip_end p (c ∷ s) = let rest = strip_end p s in if p c && is_empty rest then [] else c ∷ rest

-- The last code passes the test.
unfoldable pub ends_in : (ℕ → Bool) → Text → Bool
ends_in p [] = false
ends_in p (c ∷ []) = p c
ends_in p (c ∷ d ∷ s) = ends_in p (d ∷ s)

abbrev pub is_slash : ℕ → Bool
is_slash c = c == b'/'

-- `[/\\]`.
abbrev pub is_separator : ℕ → Bool
is_separator c = c == b'/' || c == b'\\'

-- ===== src/Format/Cron.antt =====
-- `isValidCron` of web/src/lib/format.ts.
pub mod Laws
use prox_back.Prelude.{
  ℕ, Bool, true, false, not, List, [], ◌∷◌, ◌++◌, ◌&&◌, ◌||◌, ◌==◌, if◌then◌else◌, is_empty, all,
  length,
}
use prox_back.Js.Text.{Text, is_space, trim}
use prox_back.Js.Number.{is_digit}

-- `text.split(/\s+/)`: `word` is the piece in hand, and `gap` says that a separator has just begun.
unfoldable pub split_spaces : Bool → Text → Text → List Text
split_spaces gap word [] = word ∷ []
split_spaces gap word (c ∷ s) = elim (is_space c) [
  | false ↦ split_spaces false (word ++ (c ∷ [])) s
  | true ↦ elim gap [ true ↦ split_spaces true word s | false ↦ word ∷ split_spaces true [] s ]
]

-- A code unit of the class [0-9*,\-/].
unfoldable pub is_cron_code : ℕ → Bool
unfolding is_digit
is_cron_code c = is_digit c || c == b'*' || c == b',' || c == b'-' || c == b'/'

-- `/^[0-9*,\-/]+$/.test(field)`.
unfoldable pub is_cron_field : Text → Bool
is_cron_field field = not (is_empty field) && all is_cron_code field

-- `isValidCron`.
unfoldable pub is_valid_cron : Text → Bool
is_valid_cron expr =
    let fields = split_spaces false [] (trim expr) in
    if length fields == 5 then all is_cron_field fields else false

-- ===== src/Api/Wire.antt =====
-- The readers that web/src/api.ts shares between entities: a bounded integer, a wall-clock time and
-- a list of texts.
pub mod Laws
use prox_back.Prelude.{
  ℕ, Bool, true, false, not, List, [], ◌∷◌, ◌&&◌, ◌||◌, ◌==◌, leb, if◌then◌else◌, is_empty,
}
use prox_back.Js.Text.{Text, trim}
use prox_back.Js.Number.{Number, finite, round, clamp, is_digit}
use prox_back.Js.Value.{Value, str, arr, Items, nil, cons, number_of}

clamp_number : Number → ℕ → ℕ → ℕ → ℕ
unfolding clamp round
clamp_number (finite m d) lo hi fallback = clamp lo hi (round m d)
clamp_number _ lo hi fallback = fallback

-- `clampInt`. For a number `Number(value)` is the value itself, so both branches of its test are one.
unfoldable pub clamp_int : Value → ℕ → ℕ → ℕ → ℕ
unfolding clamp_number number_of
clamp_int value lo hi fallback = clamp_number (number_of value) lo hi fallback

-- The regular expression `HHMM`, /^([01]\d|2[0-3]):[0-5]\d$/.
unfoldable pub is_hhmm : Text → Bool
unfolding is_digit
is_hhmm (a ∷ b ∷ c ∷ d ∷ e ∷ []) =
    ((a == b'0' || a == b'1') && is_digit b || a == b'2' && (leb b'0' b && leb b b'3'))
    && (c == b':' && (leb b'0' d && leb d b'5') && is_digit e)
is_hhmm _ = false

-- `timeOf`.
unfoldable pub time_of : Value → Text → Text
unfolding is_hhmm
time_of (str s) fallback = if is_hhmm s then s else fallback
time_of _ fallback = fallback

-- The `filter`, `map` and `filter` of `stringList`, in one pass.
texts_of : Items → List Text
unfolding trim
texts_of nil = []
texts_of (cons (str s) vs) =
    let rest = texts_of vs in if is_empty (trim s) then rest else trim s ∷ rest
texts_of (cons _ vs) = texts_of vs

-- `stringList`.
unfoldable pub string_list : Value → List Text
unfolding texts_of
string_list (arr items) = texts_of items
string_list _ = []

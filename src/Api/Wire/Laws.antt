-- ===== src/Api/Wire/Laws.antt =====
-- The shared readers of web/src/api.ts: `clampInt`, `timeOf` and `stringList`.
use prox_back.Prelude.{
  ℕ, ◌≤◌, ◌≡◌, refl, ap, true, false, List, [], ◌∷◌, arith, All, is_empty, map, inl, inr,
  Bool-cases,
}
use prox_back.Js.Text.{Text, trim}
use prox_back.Js.Text.Trimming.{trim_idem}
use prox_back.Js.Number.{Number, finite, whole, round}
use prox_back.Js.Number.Bounds.{clamp_bounds, clamp-round_whole}
use prox_back.Js.Value.{Value, num, str, arr, Items, nil, cons, of_list, number_of}
use prox_back.Api.Wire.{clamp_number, clamp_int, is_hhmm, time_of, texts_of, string_list}

clamp_number_bounds :
    (n : Number) (lo hi fallback : ℕ)
    → lo ≤ fallback
    → fallback ≤ hi
    → (lo ≤ clamp_number n lo hi fallback) × (clamp_number n lo hi fallback ≤ hi)
unfolding clamp_number
clamp_number_bounds (finite m d) lo hi fallback h k = clamp_bounds lo hi (round m d) (omega arith)
clamp_number_bounds _ lo hi fallback h k = (h, k)

-- The result of `clampInt` lies between its bounds, if the fallback does.
pub clamp_int_bounds :
    (v : Value) (lo hi fallback : ℕ)
    → lo ≤ fallback
    → fallback ≤ hi
    → (lo ≤ clamp_int v lo hi fallback) × (clamp_int v lo hi fallback ≤ hi)
unfolding clamp_int
clamp_int_bounds v = clamp_number_bounds (number_of v)

-- A whole number within the bounds is read as it is.
pub clamp_int-whole :
    (lo hi fallback n : ℕ) → lo ≤ n → n ≤ hi → clamp_int (num (whole n)) lo hi fallback ≡ n
unfolding clamp_int clamp_number
clamp_int-whole lo hi fallback n h k = clamp-round_whole lo hi n h k

abbrev pub IsTime : Text → Type 0
IsTime t = is_hhmm t ≡ true

-- `timeOf` returns an `HH:MM` text, or its fallback.
pub time_of-IsTime : (v : Value) (fallback : Text) → IsTime fallback → IsTime (time_of v fallback)
unfolding time_of
time_of-IsTime (str s) fallback h = elim (Bool-cases (is_hhmm s)) [
  | inl e ↦ rw e e
  | inr e ↦ rw e h
]
time_of-IsTime _ fallback h = h

pub time_of_id : (t fallback : Text) → IsTime t → time_of (str t) fallback ≡ t
unfolding time_of
time_of_id t fallback h = rw h

-- A text that `stringList` lets through: trimmed and not empty.
abbrev pub IsEntry : Text → Type 0
IsEntry t = (trim t ≡ t) × (is_empty t ≡ false)

texts_of-IsEntry : (vs : Items) → All IsEntry (texts_of vs)
unfolding texts_of
texts_of-IsEntry nil = tt
texts_of-IsEntry (cons (str s) vs) = ground (arith, texts_of-IsEntry vs, trim_idem s)
texts_of-IsEntry (cons _ vs) = texts_of-IsEntry vs

pub string_list-IsEntry : (v : Value) → All IsEntry (string_list v)
unfolding string_list
string_list-IsEntry (arr vs) = texts_of-IsEntry vs
string_list-IsEntry _ = tt

texts_of_id : (ts : List Text) → All IsEntry ts → texts_of (of_list (map str ts)) ≡ ts
unfolding texts_of
texts_of_id [] h = refl
texts_of_id (t ∷ ts) h = rw (h.0.0, h.0.1) (ap (t ∷◌) (texts_of_id ts h.1))

pub string_list_id :
    (ts : List Text) → All IsEntry ts → string_list (arr (of_list (map str ts))) ≡ ts
unfolding string_list
string_list_id = texts_of_id

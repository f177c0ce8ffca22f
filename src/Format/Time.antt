-- ===== src/Format/Time.antt =====
-- Wall-clock times `HH:MM` in web/src/lib/format.ts: `timeParts` and `padTime`.
pub mod Laws
use prox_back.Prelude.{
  ℕ, ◌+◌, ◌*◌, Bool, true, false, List, [], ◌∷◌, ◌++◌, Option, none, some, ◌==◌, if◌then◌else◌,
}
use prox_back.Js.Text.{Text, codes, print_nat, pad_start}
use prox_back.Js.Number.{Number, finite, nan, truncate, clamp, number_of_text}

-- The text up to the first colon, and what follows that colon.
unfoldable pub before_colon : Text → Text
before_colon [] = []
before_colon (c ∷ s) = let rest = before_colon s in if c == b':' then [] else c ∷ rest

unfoldable pub after_colon : Text → Option Text
after_colon [] = none
after_colon (c ∷ s) = let rest = after_colon s in if c == b':' then some s else rest

-- `Number` of the second part of `time.split(':')`, which is undefined without a colon.
unfoldable pub second_number : Option Text → Number
unfolding before_colon number_of_text
second_number none = nan
second_number (some s) = number_of_text (before_colon s)

-- `Number.isFinite(n) ? Math.max(0, Math.min(most, n)) : 0`, cut to its whole part as every use of
-- `timeParts` in the methods of `Date` cuts it.
part_up_to : ℕ → Number → ℕ
unfolding clamp truncate
part_up_to most (finite m d) = clamp 0 most (truncate m d)
part_up_to most _ = 0

pub record TimeParts : Type 0 where
  pub hour : ℕ
  pub minute : ℕ

-- `timeParts`.
unfoldable pub time_parts : Text → TimeParts
unfolding part_up_to second_number before_colon after_colon number_of_text
time_parts time = record {
  hour = part_up_to 23 (number_of_text (before_colon time));
  minute = part_up_to 59 (second_number (after_colon time));
}

-- `padTime`.
unfoldable pub pad_time : ℕ → ℕ → Text
unfolding pad_start print_nat
pad_time hour minute = pad_start (print_nat hour) ++ (b':' ∷ pad_start (print_nat minute))

-- ===== src/Api/Retention.antt =====
-- Grandfather-father-son retention in web/src/api.ts, and the form that edits it in
-- web/src/components/RetentionStep.tsx.
pub mod Normal
pub mod Summary
use prox_back.Prelude.{
  ℕ, ◌+◌, Bool, true, false, List, [], ◌∷◌, ◌++◌, ◌&&◌, ◌==◌, ltb, if◌then◌else◌, is_empty,
}
use prox_back.Js.Text.{Text, codes, join, print_nat}
use prox_back.Js.Number.{Number, finite, whole, round, clamp, number_of_text}
use prox_back.Js.Value.{Value, num, arr, obj, end, field, property, lookup}
use prox_back.Api.Wire.{clamp_int}
use prox_back.Api.Policy.Highlights.{push_if}

pub record RetentionPolicy : Type 0 where
  pub keep_last : ℕ
  pub keep_daily : ℕ
  pub keep_weekly : ℕ
  pub keep_monthly : ℕ
  pub keep_yearly : ℕ

abbrev pub default_retention : RetentionPolicy
default_retention = record {
  keep_last = 7;
  keep_daily = 0;
  keep_weekly = 0;
  keep_monthly = 0;
  keep_yearly = 0;
}

parse_fields : Value → RetentionPolicy
unfolding lookup
parse_fields raw = record {
  keep_last = clamp_int (property (codes "keepLast") raw) 0 9999 0;
  keep_daily = clamp_int (property (codes "keepDaily") raw) 0 9999 0;
  keep_weekly = clamp_int (property (codes "keepWeekly") raw) 0 9999 0;
  keep_monthly = clamp_int (property (codes "keepMonthly") raw) 0 9999 0;
  keep_yearly = clamp_int (property (codes "keepYearly") raw) 0 9999 0;
}

-- `parseRetention`.
unfoldable pub parse_retention : Value → RetentionPolicy
unfolding parse_fields
parse_retention (num n) = record default_retention { keep_last = clamp_int (num n) 0 9999 7 }
parse_retention (obj fields) = parse_fields (obj fields)
parse_retention (arr items) = parse_fields (arr items)
parse_retention _ = default_retention

-- `isSimpleRetention`.
unfoldable pub is_simple_retention : RetentionPolicy → Bool
is_simple_retention r =
    r.keep_daily == 0 && r.keep_weekly == 0 && r.keep_monthly == 0 && r.keep_yearly == 0

-- `retentionRuleCount`.
unfoldable pub retention_rule_count : RetentionPolicy → ℕ
retention_rule_count r = r.keep_last + r.keep_daily + r.keep_weekly + r.keep_monthly + r.keep_yearly

-- The array `parts` of `describeRetention`, each push in front of the later ones.
retention_parts : RetentionPolicy → List Text
retention_parts r = push_if (ltb 0 r.keep_last) (codes "Keep last " ++ print_nat r.keep_last) (
    push_if (ltb 0 r.keep_daily) (print_nat r.keep_daily ++ codes " daily") (
      push_if (ltb 0 r.keep_weekly) (print_nat r.keep_weekly ++ codes " weekly") (
        push_if (ltb 0 r.keep_monthly) (print_nat r.keep_monthly ++ codes " monthly")
          (push_if (ltb 0 r.keep_yearly) (print_nat r.keep_yearly ++ codes " yearly") []))))

-- `describeRetention`.
unfoldable pub describe_retention : Value → Text
unfolding retention_parts
describe_retention value =
    let parts = retention_parts (parse_retention value) in
    if is_empty parts then codes "Keeps nothing" else join (codes " · ") parts

clamp_field : Number → ℕ
unfolding clamp round
clamp_field (finite m d) = clamp 0 9999 (round m d)
clamp_field _ = 0

-- `clamp` of RetentionStep.tsx: what a number field holds after its text was edited.
unfoldable pub read_field : Text → ℕ
unfolding clamp_field
read_field text = clamp_field (number_of_text text)

-- What an operator can do to the form: type into a field, or press a preset.
pub data Edit : Type 0 where
  type_last type_daily type_weekly type_monthly type_yearly : Text → Edit
  press : ℕ → Edit

-- `patch` in the handlers of `RetentionStep`; the presets are 3, 7, 14 and 30.
unfoldable pub edit : RetentionPolicy → Edit → RetentionPolicy
unfolding read_field
edit r (type_last text) = record r { keep_last = read_field text }
edit r (type_daily text) = record r { keep_daily = read_field text }
edit r (type_weekly text) = record r { keep_weekly = read_field text }
edit r (type_monthly text) = record r { keep_monthly = read_field text }
edit r (type_yearly text) = record r { keep_yearly = read_field text }
edit r (press preset) = record r { keep_last = preset }

-- The object of a policy, as the client sends it.
unfoldable pub to_value : RetentionPolicy → Value
to_value r = obj (
    field (codes "keepLast") (num (whole r.keep_last)) (
      field (codes "keepDaily") (num (whole r.keep_daily)) (
        field (codes "keepWeekly") (num (whole r.keep_weekly)) (
          field (codes "keepMonthly") (num (whole r.keep_monthly))
            (field (codes "keepYearly") (num (whole r.keep_yearly)) end)))))

-- ===== src/Api/Retention/Normal.antt =====
-- The limits of a retention policy: `parseRetention` of web/src/api.ts and the form.
use prox_back.Prelude.{ℕ, ◌≤◌, ◌≡◌, arith, ◌⊎◌}
use prox_back.Js.Text.{Text}
use prox_back.Js.Number.{Number, finite, whole, round, number_of_text}
use prox_back.Js.Number.Bounds.{clamp_bounds}
use prox_back.Js.Value.{Value, num, arr, obj}
use prox_back.Api.Wire.{clamp_int}
use prox_back.Api.Wire.Laws.{clamp_int_bounds, clamp_int-whole}
use prox_back.Api.Retention.{
  RetentionPolicy, default_retention, parse_fields, parse_retention, clamp_field, read_field, Edit,
  type_last, type_daily, type_weekly, type_monthly, type_yearly, press, edit, to_value,
}

pub record IsNormal (r : RetentionPolicy) : Type 0 where
  pub last : r.keep_last ≤ 9999
  pub daily : r.keep_daily ≤ 9999
  pub weekly : r.keep_weekly ≤ 9999
  pub monthly : r.keep_monthly ≤ 9999
  pub yearly : r.keep_yearly ≤ 9999

at_most_9999 : (v : Value) (fallback : ℕ) → fallback ≤ 9999 → clamp_int v 0 9999 fallback ≤ 9999
at_most_9999 v fallback h = (clamp_int_bounds v 0 9999 fallback (omega arith) h).1

parse_fields-IsNormal : (raw : Value) → IsNormal (parse_fields raw)
unfolding parse_fields
parse_fields-IsNormal raw = record {
  last = at_most_9999 _ 0 (omega arith);
  daily = at_most_9999 _ 0 (omega arith);
  weekly = at_most_9999 _ 0 (omega arith);
  monthly = at_most_9999 _ 0 (omega arith);
  yearly = at_most_9999 _ 0 (omega arith);
}

-- Whatever the server sends, every counter that is read is at most 9999.
pub parse_retention-IsNormal : (v : Value) → IsNormal (parse_retention v)
unfolding parse_retention
parse_retention-IsNormal (num n) = record {
  last = at_most_9999 (num n) 7 (omega arith);
  daily = omega arith;
  weekly = omega arith;
  monthly = omega arith;
  yearly = omega arith;
}
parse_retention-IsNormal (obj fields) = parse_fields-IsNormal (obj fields)
parse_retention-IsNormal (arr items) = parse_fields-IsNormal (arr items)
parse_retention-IsNormal _ = omega arith

-- A policy within the limits survives being sent and read back, and a bare number within them is
-- read as the policy that keeps that many last points and has no other rule.
pub parse_retention-to_value :
    (r : RetentionPolicy)
    → IsNormal r
    → (parse_retention (to_value r) ≡ r)
      × (parse_retention (num (whole r.keep_last)) ≡ record {
        keep_last = r.keep_last;
        keep_daily = 0;
        keep_weekly = 0;
        keep_monthly = 0;
        keep_yearly = 0;
      })
unfolding parse_retention to_value
parse_retention-to_value r h = (
  λ i. record {
    keep_last = clamp_int-whole 0 9999 0 r.keep_last (omega arith) h.last i;
    keep_daily = clamp_int-whole 0 9999 0 r.keep_daily (omega arith) h.daily i;
    keep_weekly = clamp_int-whole 0 9999 0 r.keep_weekly (omega arith) h.weekly i;
    keep_monthly = clamp_int-whole 0 9999 0 r.keep_monthly (omega arith) h.monthly i;
    keep_yearly = clamp_int-whole 0 9999 0 r.keep_yearly (omega arith) h.yearly i;
  },
  λ i. record default_retention {
    keep_last = clamp_int-whole 0 9999 7 r.keep_last (omega arith) h.last i;
  },
)

clamp_field_le : (n : Number) → clamp_field n ≤ 9999
unfolding clamp_field
clamp_field_le (finite m d) = (clamp_bounds 0 9999 (round m d) (omega arith)).1
clamp_field_le _ = omega arith

read_field_le : (text : Text) → read_field text ≤ 9999
unfolding read_field
read_field_le text = clamp_field_le (number_of_text text)

-- The presets that the form offers.
abbrev pub IsOffered : Edit → Type 0
IsOffered (press preset) = (preset ≡ 3) ⊎ (preset ≡ 7) ⊎ (preset ≡ 14) ⊎ (preset ≡ 30)
IsOffered _ = Unit

-- Whatever is typed into a field, and whichever preset is pressed, the policy stays within the
-- limits.
pub edit-IsNormal :
    (r : RetentionPolicy) (e : Edit) → IsOffered e → IsNormal r → IsNormal (edit r e)
unfolding edit
edit-IsNormal r (type_last text) o h = omega (arith, read_field_le text)
edit-IsNormal r (type_daily text) o h = omega (arith, read_field_le text)
edit-IsNormal r (type_weekly text) o h = omega (arith, read_field_le text)
edit-IsNormal r (type_monthly text) o h = omega (arith, read_field_le text)
edit-IsNormal r (type_yearly text) o h = omega (arith, read_field_le text)
edit-IsNormal r (press preset) o h = omega arith

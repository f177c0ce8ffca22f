-- ===== src/Api/Schedule.antt =====
-- Job schedules: the types and `parseSchedule` of web/src/api.ts.
pub mod Normal
use prox_back.Prelude.{ℕ, Bool, true, false, List, [], ◌∷◌, ◌||◌, if◌then◌else◌, is_empty, map}
use prox_back.Js.Text.{Text, codes, same_text, trim}
use prox_back.Js.Number.{whole}
use prox_back.Js.Array.{unique, sort}
use prox_back.Js.Value.{
  Value, undefined, null, num, str, arr, obj, Items, nil, cons, end, field, to_list, of_list,
  property, lookup,
}
use prox_back.Api.Wire.{clamp_int, time_of}

-- `time` is `HH:MM`; day 0 of the week is Sunday; day 31 of the month is its last day.
pub data Schedule : Type 0 where
  manual : Schedule
  hourly : ℕ → Schedule
  daily : Text → Schedule
  weekly : Text → List ℕ → Schedule
  monthly : Text → ℕ → Schedule
  advanced : Text → Schedule

-- `value === text`.
unfoldable pub is_text : Value → Text → Bool
unfolding same_text
is_text (str s) t = same_text s t
is_text _ t = false

-- `Array.isArray(value) ? value : []`.
unfoldable pub array_or_empty : Value → List Value
array_or_empty (arr items) = to_list items
array_or_empty _ = []

-- `weekdays.length ? weekdays : [0]`.
unfoldable pub or_sunday : List ℕ → List ℕ
or_sunday [] = 0 ∷ []
or_sunday (d ∷ ds) = d ∷ ds

unfoldable pub weekday_list : Value → List ℕ
unfolding array_or_empty or_sunday unique sort
weekday_list v = or_sunday (sort (unique (map (λ day. clamp_int day 0 6 0) (array_or_empty v))))

-- `typeof value === 'string' ? value.trim() : ''`.
unfoldable pub trimmed_or_empty : Value → Text
trimmed_or_empty (str s) = trim s
trimmed_or_empty _ = []

pub data ScheduleKind : Type 0 where
  manual hourly daily weekly monthly advanced : ScheduleKind

-- The label of the `switch` on `raw.kind` that is taken; `manual` stands for `default` too.
unfoldable pub kind_of : Value → ScheduleKind
unfolding is_text
kind_of kind =
    if is_text kind (codes "hourly")
    then ScheduleKind.hourly
    else if is_text kind (codes "daily")
    then ScheduleKind.daily
    else if is_text kind (codes "weekly")
    then ScheduleKind.weekly
    else if is_text kind (codes "monthly")
    then ScheduleKind.monthly
    else if is_text kind (codes "advanced")
    then ScheduleKind.advanced
    else ScheduleKind.manual

-- The branches of that `switch`.
unfoldable pub parse_as : ScheduleKind → Value → Schedule
unfolding weekday_list trimmed_or_empty lookup
parse_as ScheduleKind.hourly raw =
    Schedule.hourly (clamp_int (property (codes "minute") raw) 0 59 0)
parse_as ScheduleKind.daily raw =
    Schedule.daily (time_of (property (codes "time") raw) (codes "02:00"))
parse_as ScheduleKind.weekly raw =
    Schedule.weekly (time_of (property (codes "time") raw) (codes "03:00"))
      (weekday_list (property (codes "weekdays") raw))
parse_as ScheduleKind.monthly raw =
    Schedule.monthly (time_of (property (codes "time") raw) (codes "01:00"))
      (clamp_int (property (codes "dayOfMonth") raw) 1 31 1)
parse_as ScheduleKind.advanced raw =
    Schedule.advanced (trimmed_or_empty (property (codes "cron") raw))
parse_as ScheduleKind.manual raw = Schedule.manual

unfoldable pub parse_object : Value → Schedule
unfolding kind_of parse_as
parse_object raw = parse_as (kind_of (property (codes "kind") raw)) raw

unfoldable pub parse_text : Text → Schedule
unfolding same_text
parse_text s =
    let text = trim s in
    if is_empty s || is_empty text || same_text text (codes "manual")
    then Schedule.manual
    else Schedule.advanced text

-- `parseSchedule`.
unfoldable pub parse_schedule : Value → Schedule
unfolding parse_object parse_text
parse_schedule undefined = Schedule.manual
parse_schedule null = Schedule.manual
parse_schedule (str s) = parse_text s
parse_schedule value = parse_object value

-- The object of a schedule, as the client sends it.
unfoldable pub to_value : Schedule → Value
to_value Schedule.manual = obj (field (codes "kind") (str (codes "manual")) end)
to_value (Schedule.hourly minute) =
    obj (
      field (codes "kind") (str (codes "hourly")) (field (codes "minute") (num (whole minute)) end))
to_value (Schedule.daily time) =
    obj (field (codes "kind") (str (codes "daily")) (field (codes "time") (str time) end))
to_value (Schedule.weekly time weekdays) = obj (
    field (codes "kind") (str (codes "weekly")) (
      field (codes "time") (str time)
        (field (codes "weekdays") (arr (of_list (map (λ d. num (whole d)) weekdays))) end)))
to_value (Schedule.monthly time day_of_month) = obj (
    field (codes "kind") (str (codes "monthly"))
      (field (codes "time") (str time) (field (codes "dayOfMonth") (num (whole day_of_month)) end)))
to_value (Schedule.advanced cron) =
    obj (field (codes "kind") (str (codes "advanced")) (field (codes "cron") (str cron) end))

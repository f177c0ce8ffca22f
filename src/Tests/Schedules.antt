-- ===== src/Tests/Schedules.antt =====
-- Schedules, their next runs and their editor at concrete inputs.
use prox_back.Prelude.{ℕ, ◌≡◌, refl, ◌⊎◌, true, List, [], ◌∷◌, none, some, arith}
use prox_back.Js.Text.{Text, codes}
use prox_back.Js.Value.{Value, str, obj, field, end}
use prox_back.Js.Array.{sort}
use prox_back.Api.Wire.{is_hhmm}
use prox_back.Api.Wire.Laws.{IsTime}
use prox_back.Api.Schedule.{Schedule, ScheduleKind, parse_schedule, to_value}
use prox_back.Api.Schedule.Normal.{IsNormal, parse_schedule-IsNormal, parse_schedule-to_value}
use prox_back.Format.Calendar.{Date, month_length}
use prox_back.Format.Calendar.Laws.{IsDate}
use prox_back.Format.Time.{time_parts}
use prox_back.Format.NextRun.{next_weekly, next_monthly, next_run_of}
use prox_back.Format.NextRun.Search.{IsLeast}
use prox_back.Format.NextRun.Weekly.{FiresWeekly, next_weekly-IsLeast}
use prox_back.Format.NextRun.Monthly.{FiresMonthly, next_monthly-IsLeast}
use prox_back.Format.NextRun.Total.{HasNoPreview, Comes, next_run_of-parse_schedule}
use prox_back.ScheduleEditor.{
  Draft, draft_from, to_schedule, is_schedule_complete, toggle, open_editor, handle, toggle_weekday,
}
use prox_back.ScheduleEditor.Emitted.{run, run-IsNormal}

-- 28 February 2027, half past three in the afternoon.
abbrev today : Date
today = record { months = 24_325; date = 28; ms = 55_800_000 }

today-IsDate : IsDate today
unfolding month_length
today-IsDate = record { from_first = omega arith; to_last = ground arith; within_day = omega arith }

abbrev noon : Text
noon = codes "12:00"

noon-IsTime : IsTime noon
noon-IsTime = unfold is_hhmm in refl

abbrev weekend : List ℕ
weekend = 0 ∷ 6 ∷ []

next_weekly_example :
    (d : Date) × (next_weekly today (time_parts noon) weekend ≡ some d)
    × IsLeast (FiresWeekly (time_parts noon) weekend) today d
next_weekly_example =
    next_weekly-IsLeast today noon weekend today-IsDate (omega arith, (omega arith, tt)) (λ e. cc)

next_monthly_example :
    (d : Date) × (next_monthly today (time_parts noon) 31 ≡ some d)
    × IsLeast (FiresMonthly (time_parts noon) 31) today d
next_monthly_example = next_monthly-IsLeast today noon 31 today-IsDate (omega arith)

abbrev weekly_value : Value
weekly_value =
    obj
      (field (codes "kind") (str (codes "weekly")) (field (codes "time") (str (codes "25:99")) end))

next_run_example :
    (HasNoPreview (parse_schedule weekly_value)
      × (next_run_of (parse_schedule weekly_value) today ≡ none))
    ⊎ Comes (next_run_of (parse_schedule weekly_value) today) today
next_run_example = next_run_of-parse_schedule weekly_value today today-IsDate

read_schedule_example : IsNormal (parse_schedule weekly_value)
read_schedule_example = parse_schedule-IsNormal weekly_value

abbrev weekends : Schedule
weekends = Schedule.weekly noon weekend

weekends-IsNormal : IsNormal weekends
weekends-IsNormal =
    (noon-IsTime, ((omega arith, tt), (tt, tt)), (omega arith, (omega arith, tt)), λ e. cc)

sent_schedule_example : parse_schedule (to_value weekends) ≡ weekends
sent_schedule_example = parse_schedule-to_value weekends weekends-IsNormal

abbrev weekly_draft : Draft
weekly_draft = record {
  kind = ScheduleKind.weekly;
  minute = 0;
  time = noon;
  weekdays = weekend;
  day_of_month = 1;
  cron = [];
  fallback = ScheduleKind.weekly;
}

session_example :
    IsNormal (to_schedule (run (open_editor weekends) (toggle 3 ∷ [])).draft)
    × (parse_schedule (to_value (to_schedule (run (open_editor weekends) (toggle 3 ∷ [])).draft))
        ≡ to_schedule (run (open_editor weekends) (toggle 3 ∷ [])).draft)
session_example = run-IsNormal weekends (toggle 3 ∷ []) weekends-IsNormal (omega arith, tt) complete
  where
    complete :
        is_schedule_complete (to_schedule (run (open_editor weekends) (toggle 3 ∷ [])).draft) ≡ true
    complete =
        unfold is_schedule_complete to_schedule open_editor handle draft_from toggle_weekday sort in
        refl

abbrev cron_fields : List Text
cron_fields = codes "3" ∷ codes "1-5" ∷ codes "*" ∷ codes "*" ∷ []

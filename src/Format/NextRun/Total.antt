-- ===== src/Format/NextRun/Total.antt =====
-- `nextRunOf` of web/src/lib/format.ts on what `parseSchedule` reads.
use prox_back.Prelude.{◌<◌, ◌≡◌, refl, ◌⊎◌, inl, inr, Option, none, some}
use prox_back.Js.Value.{Value}
use prox_back.Api.Schedule.{Schedule, parse_schedule}
use prox_back.Api.Schedule.Normal.{IsNormal, parse_schedule-IsNormal}
use prox_back.Format.Calendar.{Date, instant}
use prox_back.Format.Calendar.Laws.{IsDate}
use prox_back.Format.NextRun.{next_run_of}
use prox_back.Format.NextRun.Hourly.{next_hourly-IsNext, next_daily-IsNext}
use prox_back.Format.NextRun.Weekly.{next_weekly-IsLeast}
use prox_back.Format.NextRun.Monthly.{next_monthly-IsLeast}

-- Schedules that the browser computes no run for.
abbrev pub HasNoPreview : Schedule → Type 0
HasNoPreview Schedule.manual = Unit
HasNoPreview (Schedule.advanced cron) = Unit
HasNoPreview _ = ⊥

abbrev pub Comes : Option Date → Date → Type 0
Comes next now = (d : Date) × (next ≡ some d) × (instant now < instant d)

next_run_of-IsNormal :
    (s : Schedule) (now : Date)
    → IsNormal s
    → IsDate now
    → (HasNoPreview s × (next_run_of s now ≡ none)) ⊎ Comes (next_run_of s now) now
unfolding next_run_of
next_run_of-IsNormal Schedule.manual now h v = inl (tt, refl)
next_run_of-IsNormal (Schedule.advanced cron) now h v = inl (tt, refl)
next_run_of-IsNormal (Schedule.hourly minute) now h v =
    inr (_, refl, (next_hourly-IsNext now minute v h).later)
next_run_of-IsNormal (Schedule.daily time) now h v =
    inr (_, refl, (next_daily-IsNext now time v).later)
next_run_of-IsNormal (Schedule.weekly time days) now h v =
    let (d, found, first) = next_weekly-IsLeast now time days v h.2 h.3 in
    inr (d, found, first.later)
next_run_of-IsNormal (Schedule.monthly time day) now h v =
    let (d, found, first) = next_monthly-IsLeast now time day v h.1 in inr (d, found, first.later)

-- For any value that the server holds in a schedule, and any date of the calendar for now: the
-- schedule read from it is manual or a cron expression and there is no preview, or the preview is a
-- date after now.
pub next_run_of-parse_schedule :
    (value : Value) (now : Date)
    → IsDate now
    → (HasNoPreview (parse_schedule value) × (next_run_of (parse_schedule value) now ≡ none))
      ⊎ Comes (next_run_of (parse_schedule value) now) now
next_run_of-parse_schedule value now v =
    next_run_of-IsNormal (parse_schedule value) now (parse_schedule-IsNormal value) v

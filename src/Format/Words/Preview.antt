-- ===== src/Format/Words/Preview.antt =====
-- `formatWallClock` of the next run, the preview of the schedule editor, in web/src/lib/format.ts.
use prox_back.Prelude.{ℕ, zero, suc, ◌≤◌, ◌≡◌, refl, List, [], ◌++◌, arith}
use prox_back.Js.Text.{Text, codes, print_nat}
use prox_back.Js.Array.Membership.{Contains}
use prox_back.Api.Wire.Laws.{IsTime}
use prox_back.Api.Schedule.{Schedule}
use prox_back.Api.Schedule.Normal.{IsNormal}
use prox_back.Format.Time.{time_parts, pad_time}
use prox_back.Format.Time.Laws.{time_parts_bounds, pad_time-time_parts}
use prox_back.Format.Calendar.{Date, get_day, get_hours, get_minutes, get_month}
use prox_back.Format.Calendar.Laws.{IsDate, get_day_lem}
use prox_back.Format.NextRun.{next_run_of}
use prox_back.Format.NextRun.Weekly.{time_ms, next_weekly-IsLeast}
use prox_back.Format.Words.{text_at, long_days, short_months, weekday_long, format_wall_clock}

-- The time of day that a date shows.
shown_time :
    (d : Date) (time : Text)
    → IsTime time
    → d.ms ≡ time_ms (time_parts time)
    → pad_time (get_hours d) (get_minutes d) ≡ time
shown_time d time h e =
    let (p, q) = time_parts_bounds time in
    let hours : get_hours d ≡ (time_parts time).hour = omega (arith, e, p, q) in
    let minutes : get_minutes d ≡ (time_parts time).minute = omega (arith, e, p, q) in
    rw (hours, minutes) (pad_time-time_parts time h)

past_week : (n : ℕ) → suc (suc (suc (suc (suc (suc (suc n)))))) ≤ 6 → ⊥
past_week n h = omega (arith, h)

-- `WEEKDAY_LONG[day]` is `weekdayLong` of a day of the week.
named_day : (day : ℕ) → day ≤ 6 → text_at long_days day [] ≡ weekday_long day
unfolding weekday_long
named_day zero h = refl
named_day (suc zero) h = refl
named_day (suc (suc zero)) h = refl
named_day (suc (suc (suc zero))) h = refl
named_day (suc (suc (suc (suc zero)))) h = refl
named_day (suc (suc (suc (suc (suc zero))))) h = refl
named_day (suc (suc (suc (suc (suc (suc zero)))))) h = refl
named_day (suc (suc (suc (suc (suc (suc (suc n))))))) h = absurd (past_week n h)

named_day_of : (d : Date) → text_at long_days (get_day d) [] ≡ weekday_long (get_day d)
named_day_of d = named_day (get_day d) (omega (arith, get_day_lem d))

-- The preview of a weekly schedule in normal form names one of its weekdays, and it ends in the time of
-- the schedule.
pub format_wall_clock-next_run_of :
    (now : Date) (time : Text) (days : List ℕ)
    → IsDate now
    → IsNormal (Schedule.weekly time days)
    → (d : Date) × (Contains (get_day d) days
        × (format_wall_clock (next_run_of (Schedule.weekly time days) now)
            ≡ weekday_long (get_day d)
              ++ (codes " "
                  ++ (print_nat d.date
                      ++ (codes " "
                          ++ (text_at short_months (get_month d) [] ++ (codes ", " ++ time)))))))
unfolding format_wall_clock next_run_of
format_wall_clock-next_run_of now time days v n =
    let (d, next, least) = next_weekly-IsLeast now time days v n.2 n.3 in
    (
      d,
      (
        least.fires.on_day,
        rw (next, named_day_of d, shown_time d time n.0 least.fires.at_time) refl,
      ),
    )

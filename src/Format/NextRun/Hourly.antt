-- ===== src/Format/NextRun/Hourly.antt =====
-- `case 'hourly'` and `case 'daily'` of `nextRunOf` in web/src/lib/format.ts.
use prox_back.Prelude.{
  ℕ, ◌+◌, ◌*◌, ◌/◌, ◌%◌, ◌<◌, ◌≤◌, ◌≡◌, arith, inl, inr, Bool-cases, if◌then◌else◌,
}
use prox_back.Js.Text.{Text}
use prox_back.Format.Time.{time_parts}
use prox_back.Format.Time.Laws.{time_parts_bounds}
use prox_back.Format.Calendar.{
  Date, get_hours, day_ms, hour_ms, minute_ms, day_number, instant, clear_seconds, set_minutes,
  set_hours, set_hours_minutes, set_date, at_or_before,
}
use prox_back.Format.Calendar.Laws.{
  IsDate, IsAt, set_date-IsAt, set_hours_minutes-IsAt, set_minutes-IsAt, set_hours-IsAt,
  clear_seconds-IsDate, clear_seconds_fields, instant_lem, instant_parts, le_of_at_or_before,
  lt_of_not_at_or_before,
}
use prox_back.Format.NextRun.{next_hourly, next_daily}

-- A date of the calendar within `period` after `now`, at `phase` past a multiple of `period`.
pub record IsNext (now d : Date) (period phase : ℕ) : Type 0 where
  pub is_date : IsDate d
  pub later : instant now < instant d
  pub soon : instant d ≤ instant now + period
  pub at_phase : instant d % period ≡ phase

-- Today's candidate, as an instant: within the hour and minute asked for, seconds cleared.
daily_today :
    (now : Date) (hour minute : ℕ)
    → IsDate now
    → IsAt
        (set_hours_minutes (clear_seconds now) hour minute)
        (day_number now * day_ms + (hour * hour_ms + minute * minute_ms))
daily_today now hour minute v =
    let c = clear_seconds-IsDate now v in
    let (same_day, no_seconds, same_hour) = clear_seconds_fields now in
    let s = set_hours_minutes-IsAt (clear_seconds now) hour minute c in
    record { is_date = s.is_date; at_instant = omega (arith, s.at_instant, same_day, no_seconds) }

hourly_today :
    (now : Date) (minute : ℕ)
    → IsDate now
    → IsAt
        (set_minutes (clear_seconds now) minute)
        (day_number now * day_ms + (now.ms / hour_ms * hour_ms + minute * minute_ms))
hourly_today now minute v =
    let c = clear_seconds-IsDate now v in
    let (same_day, no_seconds, same_hour) = clear_seconds_fields now in
    let s = set_minutes-IsAt (clear_seconds now) minute c in
    record {
      is_date = s.is_date;
      at_instant = omega (arith, s.at_instant, same_day, no_seconds, same_hour);
    }

hour_later : (d : Date) → IsDate d → IsAt (set_hours d (d.ms / hour_ms + 1)) (instant d + hour_ms)
hour_later d v =
    let s = set_hours-IsAt d (d.ms / hour_ms + 1) v in
    record { is_date = s.is_date; at_instant = omega (arith, s.at_instant, instant_lem d) }

day_later : (d : Date) → IsDate d → IsAt (set_date d (d.date + 1)) (instant d + day_ms)
day_later d v =
    let s = set_date-IsAt d (d.date + 1) v (omega arith) in
    record { is_date = s.is_date; at_instant = omega (arith, s.at_instant, instant_parts d) }

-- The step from today's candidate to the next run: a period later, if the candidate is not past now.
step_IsNext :
    (now today later : Date) (period phase : ℕ)
    → IsDate today
    → IsAt later (instant today + period)
    → instant now < instant today + period
    → instant today ≤ instant now + period
    → instant today % period ≡ phase
    → (instant today + period) % period ≡ phase
    → IsNext now (if at_or_before today now then later else today) period phase
step_IsNext now today later period phase v w h k e e' = elim (Bool-cases (at_or_before today now)) [
  | inl p ↦
      let le = le_of_at_or_before today now p in
      rw p (record {
        is_date = w.is_date;
        later = omega (arith, w.at_instant);
        soon = omega (arith, w.at_instant);
        at_phase = rw w.at_instant e';
      })
  | inr p ↦
      let lt = lt_of_not_at_or_before today now p in
      rw p (record { is_date = v; later = lt; soon = k; at_phase = e })
]

-- An hourly schedule with a minute below 60 runs next at that minute of an hour, on the second, after
-- now and within the hour.
pub next_hourly-IsNext :
    (now : Date) (minute : ℕ)
    → IsDate now
    → minute ≤ 59
    → IsNext now (next_hourly now minute) hour_ms (minute * minute_ms)
unfolding next_hourly
next_hourly-IsNext now minute v h =
    let t = hourly_today now minute v in
    let n = instant_lem now in
    let today = set_minutes (clear_seconds now) minute in
    step_IsNext now today (set_hours today (get_hours today + 1)) hour_ms (minute * minute_ms)
      t.is_date (hour_later today t.is_date) (omega (arith, t.at_instant, n))
      (omega (arith, t.at_instant, n)) (omega (arith, t.at_instant)) (omega (arith, t.at_instant))

-- A daily schedule runs next at the hour and minute of its time, on the second, after now and within
-- the day.
pub next_daily-IsNext :
    (now : Date) (time : Text)
    → IsDate now
    → IsNext now
        (next_daily now (time_parts time))
        day_ms
        ((time_parts time).hour * hour_ms + (time_parts time).minute * minute_ms)
unfolding next_daily
next_daily-IsNext now time v =
    let (h, m) = time_parts_bounds time in
    let t = daily_today now (time_parts time).hour (time_parts time).minute v in
    let n = instant_lem now in
    let today =
      set_hours_minutes (clear_seconds now) (time_parts time).hour (time_parts time).minute in
    step_IsNext now today (set_date today (today.date + 1)) day_ms _ t.is_date
      (day_later today t.is_date) (omega (arith, t.at_instant, n)) (omega (arith, t.at_instant, n))
      (omega (arith, t.at_instant)) (omega (arith, t.at_instant))

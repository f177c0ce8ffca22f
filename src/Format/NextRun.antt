-- ===== src/Format/NextRun.antt =====
-- `nextRunOf` of web/src/lib/format.ts. The server's wall clock `now`, which `serverNow` reads from
-- the browser's clock and `Intl`, is an argument.
pub mod Search
pub mod Hourly
pub mod Weekly
pub mod Monthly
pub mod Total
use prox_back.Prelude.{
  ℕ, zero, suc, ◌+◌, ◌*◌, Bool, true, false, not, List, [], ◌∷◌, Option, none, some, ◌&&◌, min,
  if◌then◌else◌,
}
use prox_back.Js.Text.{Text}
use prox_back.Js.Array.{includes}
use prox_back.Api.Schedule.{Schedule}
use prox_back.Format.Time.{TimeParts, time_parts}
use prox_back.Format.Calendar.{
  Date, get_hours, hour_ms, minute_ms, get_day, new_date, set_date, clear_seconds, set_minutes,
  set_hours, set_hours_minutes, at_or_before, last_day_of_month,
}

-- for (offset; ...; offset += 1): the first of `rounds` candidates that passes.
unfoldable pub first_from : ℕ → ℕ → (ℕ → Date) → (Date → Bool) → Option Date
first_from zero offset candidate passes = none
first_from (suc rounds) offset candidate passes = elim (passes (candidate offset)) [
  | true ↦ some (candidate offset)
  | false ↦ first_from rounds (suc offset) candidate passes
]

-- `case 'hourly'`.
unfoldable pub next_hourly : Date → ℕ → Date
next_hourly now minute =
    let next = set_minutes (clear_seconds now) minute in
    if at_or_before next now then set_hours next (get_hours next + 1) else next

-- `case 'daily'`.
unfoldable pub next_daily : Date → TimeParts → Date
next_daily now parts =
    let next = set_hours_minutes (clear_seconds now) parts.hour parts.minute in
    if at_or_before next now then set_date next (next.date + 1) else next

-- The candidate of `case 'weekly'`.
unfoldable pub weekly_candidate : Date → TimeParts → ℕ → Date
weekly_candidate now parts offset =
    let start = clear_seconds now in
    set_hours_minutes (set_date start (start.date + offset)) parts.hour parts.minute

-- `wanted.has(candidate.getDay()) && candidate > now`.
unfoldable pub weekly_passes : Date → List ℕ → Date → Bool
weekly_passes now weekdays candidate =
    includes (get_day candidate) weekdays && not (at_or_before candidate now)

-- The candidate of `case 'monthly'`.
unfoldable pub monthly_candidate : Date → TimeParts → ℕ → ℕ → Date
monthly_candidate now parts day_of_month offset =
    let probe = new_date (now.months + offset) 1 0 in
    new_date probe.months (min day_of_month (last_day_of_month probe.months))
      (parts.hour * hour_ms + parts.minute * minute_ms)

unfoldable pub next_weekly : Date → TimeParts → List ℕ → Option Date
next_weekly now parts [] = none
next_weekly now parts (d ∷ ds) =
    first_from 8 0 (weekly_candidate now parts) (weekly_passes now (d ∷ ds))

unfoldable pub next_monthly : Date → TimeParts → ℕ → Option Date
next_monthly now parts day_of_month =
    first_from 14 0 (monthly_candidate now parts day_of_month)
      (λ candidate. not (at_or_before candidate now))

-- `nextRunOf`.
unfoldable pub next_run_of : Schedule → Date → Option Date
next_run_of Schedule.manual now = none
next_run_of (Schedule.advanced cron) now = none
next_run_of (Schedule.hourly minute) now = some (next_hourly now minute)
next_run_of (Schedule.daily time) now = some (next_daily now (time_parts time))
next_run_of (Schedule.weekly time weekdays) now = next_weekly now (time_parts time) weekdays
next_run_of (Schedule.monthly time day_of_month) now =
    next_monthly now (time_parts time) day_of_month

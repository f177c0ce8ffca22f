-- ===== src/Format/Calendar.antt =====
-- The part of `Date` that web/src/lib/format.ts uses, on a naive calendar without zones: months are
-- counted from January of the year 0, so that December is followed by the next year's January.
pub mod Laws
use prox_back.Prelude.{
  ℕ, zero, suc, ◌+◌, ◌-◌, ◌*◌, ◌/◌, ◌%◌, Bool, true, false, not, ◌&&◌, ◌||◌, ◌==◌, leb, ltb,
  if◌then◌else◌,
}

is_leap : ℕ → Bool
is_leap year = year % 4 == 0 && (not (year % 100 == 0) || year % 400 == 0)

length_in : ℕ → Bool → ℕ
length_in month leap =
    if month == 1
    then (if leap then 29 else 28)
    else if month == 3 || month == 5 || month == 8 || month == 10
    then 30
    else 31

-- The number of days of a month.
unfoldable pub month_length : ℕ → ℕ
unfolding is_leap length_in
month_length months = length_in (months % 12) (is_leap (months / 12))

-- The number of days before a month.
unfoldable pub days_before : ℕ → ℕ
days_before zero = 0
days_before (suc months) = days_before months + month_length months

-- `months` counts 12 for each year; `date` is the day of the month, from 1; `ms` the milliseconds
-- since midnight.
pub record Date : Type 0 where
  pub months : ℕ
  pub date : ℕ
  pub ms : ℕ

abbrev pub day_ms : ℕ
day_ms = 86_400_000

abbrev pub hour_ms : ℕ
hour_ms = 3_600_000

abbrev pub minute_ms : ℕ
minute_ms = 60_000

-- The day, counted without regard to months.
unfoldable pub day_number : Date → ℕ
day_number d = days_before d.months + d.date

-- The instant in milliseconds, by which `Date`s are compared.
unfoldable pub instant : Date → ℕ
unfolding day_number
instant d = day_number d * day_ms + d.ms

-- `getDay`: 1 January of the year 0 was a Saturday.
unfoldable pub get_day : Date → ℕ
unfolding day_number
get_day d = (day_number d + 5) % 7

-- `getHours`: the whole hours since midnight.
abbrev pub get_hours : Date → ℕ
get_hours d = d.ms / hour_ms

-- `getMinutes` and `getMonth`.
abbrev pub get_minutes : Date → ℕ
get_minutes d = d.ms % hour_ms / minute_ms

abbrev pub get_month : Date → ℕ
get_month d = d.months % 12

-- A day past the end of a month lies in a later one. Each round takes 28 days or more.
roll : ℕ → ℕ → ℕ → ℕ → Date
roll zero months date ms = record { months = months; date = date; ms = ms }
roll (suc fuel) months date ms =
    let later = roll fuel (suc months) (date - month_length months) ms in
    if leb date (month_length months)
    then record { months = months; date = date; ms = ms }
    else later

-- `new Date(year, month, date)` at `ms` after midnight. Day 0 is the last day of the month before.
unfoldable pub new_date : ℕ → ℕ → ℕ → Date
unfolding roll month_length
new_date months zero ms = record { months = months - 1; date = month_length (months - 1); ms = ms }
new_date months (suc date) ms = roll (suc date) months (suc date) ms

-- The date with another time, which may reach past midnight.
with_ms : Date → ℕ → Date
unfolding new_date
with_ms d total = new_date d.months (d.date + total / day_ms) (total % day_ms)

-- `setDate`.
unfoldable pub set_date : Date → ℕ → Date
unfolding new_date
set_date d date = new_date d.months date d.ms

-- `setSeconds(0, 0)`.
unfoldable pub clear_seconds : Date → Date
clear_seconds d = record d { ms = d.ms - d.ms % minute_ms }

-- `setMinutes(minute)`.
unfoldable pub set_minutes : Date → ℕ → Date
unfolding with_ms
set_minutes d minute = with_ms d (d.ms / hour_ms * hour_ms + minute * minute_ms + d.ms % minute_ms)

-- `setHours(hour)`.
unfoldable pub set_hours : Date → ℕ → Date
unfolding with_ms
set_hours d hour = with_ms d (hour * hour_ms + d.ms % hour_ms)

-- `setHours(hour, minute)`.
unfoldable pub set_hours_minutes : Date → ℕ → ℕ → Date
unfolding with_ms
set_hours_minutes d hour minute = with_ms d (hour * hour_ms + minute * minute_ms + d.ms % minute_ms)

-- `a <= b` on dates.
unfoldable pub at_or_before : Date → Date → Bool
at_or_before a b = leb (instant a) (instant b)

-- `lastDayOfMonth`.
unfoldable pub last_day_of_month : ℕ → ℕ
unfolding new_date
last_day_of_month months = (new_date (months + 1) 0 0).date

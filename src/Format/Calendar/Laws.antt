-- ===== src/Format/Calendar/Laws.antt =====
-- The calendar arithmetic behind the `Date`s of web/src/lib/format.ts.
use prox_back.Prelude.{
  ℕ, zero, suc, ◌+◌, ◌-◌, ◌*◌, ◌/◌, ◌%◌, ◌<◌, ◌≤◌, ◌≡◌, refl, ap, Bool, true, false, leb, leb→le,
  arith, inl, inr, Bool-cases,
}
use prox_back.Format.Calendar.{
  month_length, days_before, Date, day_ms, hour_ms, minute_ms, day_number, instant, get_day, roll,
  new_date, with_ms, set_date, clear_seconds, set_minutes, set_hours, set_hours_minutes,
  at_or_before, last_day_of_month, is_leap, length_in,
}

length_in_bounds :
    (month : ℕ) (leap : Bool) → (28 ≤ length_in month leap) × (length_in month leap ≤ 31)
unfolding length_in
length_in_bounds month leap = ground arith

pub month_length_bounds : (months : ℕ) → (28 ≤ month_length months) × (month_length months ≤ 31)
unfolding month_length
month_length_bounds months = length_in_bounds (months % 12) (is_leap (months / 12))

-- A day that its month has, and a time within the day.
pub record IsDate (d : Date) : Type 0 where
  pub from_first : 1 ≤ d.date
  pub to_last : d.date ≤ month_length d.months
  pub within_day : d.ms < day_ms

-- What `new_date` makes of a day of the calendar that is counted past the end of its month.
pub record Normalised (d : Date) (day time : ℕ) : Type 0 where
  pub is_date : (1 ≤ d.date) × (d.date ≤ month_length d.months)
  pub same_day : day_number d ≡ day
  pub same_time : d.ms ≡ time

roll-Normalised :
    (fuel months date ms : ℕ)
    → 1 ≤ date
    → date ≤ fuel
    → Normalised (roll fuel months date ms) (days_before months + date) ms
unfolding roll day_number days_before
roll-Normalised zero months date ms h k = absurd (omega arith)
roll-Normalised (suc fuel) months date ms h k = elim (Bool-cases (leb date (month_length months))) [
  | inl e ↦ rw e (record { is_date = (h, ground arith); same_day = refl; same_time = refl })
  | inr e ↦
      let past : month_length months < date = ground arith in
      let long = month_length_bounds months in
      let ih =
        roll-Normalised fuel (suc months) (date - month_length months) ms (omega arith)
          (omega arith) in
      rw e (record {
        is_date = ih.is_date;
        same_day = omega (arith, ih.same_day);
        same_time = ih.same_time;
      })
]

pub new_date-Normalised :
    (months date ms : ℕ)
    → 1 ≤ date
    → Normalised (new_date months date ms) (days_before months + date) ms
unfolding new_date
new_date-Normalised months zero ms h = absurd (omega arith)
new_date-Normalised months (suc date) ms h =
    roll-Normalised (suc date) months (suc date) ms h (omega arith)

-- A date of the month needs no normalising.
pub new_date_within :
    (months date ms : ℕ)
    → 1 ≤ date
    → date ≤ month_length months
    → new_date months date ms ≡ record { months = months; date = date; ms = ms }
unfolding new_date roll
new_date_within months zero ms h k = absurd (omega arith)
new_date_within months (suc date) ms h k = ground arith

pub last_day_of_month_lem : (months : ℕ) → last_day_of_month months ≡ month_length months
unfolding last_day_of_month new_date
last_day_of_month_lem months = let e : months + 1 - 1 ≡ months = omega arith in ap month_length e

with_ms-Normalised :
    (d : Date) (total : ℕ)
    → 1 ≤ d.date
    → Normalised (with_ms d total) (day_number d + total / day_ms) (total % day_ms)
unfolding with_ms day_number
with_ms-Normalised d total h =
    let n = new_date-Normalised d.months (d.date + total / day_ms) (total % day_ms) (omega arith) in
    record { is_date = n.is_date; same_day = omega (arith, n.same_day); same_time = n.same_time }

-- What an operation on a date gives: a date of the calendar at an instant.
pub record IsAt (d : Date) (at : ℕ) : Type 0 where
  pub is_date : IsDate d
  pub at_instant : instant d ≡ at

with_ms-IsAt :
    (d : Date) (total : ℕ) → 1 ≤ d.date → IsAt (with_ms d total) (day_number d * day_ms + total)
unfolding instant
with_ms-IsAt d total h =
    let n = with_ms-Normalised d total h in
    record {
      is_date = record {
        from_first = n.is_date.0;
        to_last = n.is_date.1;
        within_day = omega (arith, n.same_time);
      };
      at_instant = omega (arith, n.same_time, n.same_day);
    }

pub set_date-IsAt :
    (d : Date) (date : ℕ)
    → IsDate d
    → 1 ≤ date
    → IsAt (set_date d date) ((days_before d.months + date) * day_ms + d.ms)
unfolding set_date instant
set_date-IsAt d date v h =
    let n = new_date-Normalised d.months date d.ms h in
    record {
      is_date = record {
        from_first = n.is_date.0;
        to_last = n.is_date.1;
        within_day = omega (arith, n.same_time, v.within_day);
      };
      at_instant = omega (arith, n.same_time, n.same_day);
    }

pub set_hours_minutes-IsAt :
    (d : Date) (hour minute : ℕ)
    → IsDate d
    → IsAt
        (set_hours_minutes d hour minute)
        (day_number d * day_ms + (hour * hour_ms + minute * minute_ms + d.ms % minute_ms))
unfolding set_hours_minutes
set_hours_minutes-IsAt d hour minute v = with_ms-IsAt d _ v.from_first

pub set_minutes-IsAt :
    (d : Date) (minute : ℕ)
    → IsDate d
    → IsAt
        (set_minutes d minute)
        (day_number d * day_ms + (d.ms / hour_ms * hour_ms + minute * minute_ms + d.ms % minute_ms))
unfolding set_minutes
set_minutes-IsAt d minute v = with_ms-IsAt d _ v.from_first

pub set_hours-IsAt :
    (d : Date) (hour : ℕ)
    → IsDate d
    → IsAt (set_hours d hour) (day_number d * day_ms + (hour * hour_ms + d.ms % hour_ms))
unfolding set_hours
set_hours-IsAt d hour v = with_ms-IsAt d _ v.from_first

pub clear_seconds-IsDate : (d : Date) → IsDate d → IsDate (clear_seconds d)
unfolding clear_seconds
clear_seconds-IsDate d v = omega arith

pub clear_seconds_fields :
    (d : Date)
    → (day_number (clear_seconds d) ≡ day_number d)
      × ((clear_seconds d).ms % minute_ms ≡ 0)
      × ((clear_seconds d).ms / hour_ms ≡ d.ms / hour_ms)
unfolding clear_seconds day_number
clear_seconds_fields d = (refl, omega arith, omega arith)

-- An instant by its day and time, and by its month.
pub instant_lem : (d : Date) → instant d ≡ day_number d * day_ms + d.ms
unfolding instant
instant_lem d = refl

pub instant_parts : (d : Date) → instant d ≡ (days_before d.months + d.date) * day_ms + d.ms
unfolding instant
instant_parts d = refl

pub le_of_at_or_before : (a b : Date) → at_or_before a b ≡ true → instant a ≤ instant b
unfolding at_or_before
le_of_at_or_before a b h = leb→le _ _ h

pub lt_of_not_at_or_before : (a b : Date) → at_or_before a b ≡ false → instant b < instant a
unfolding at_or_before
lt_of_not_at_or_before a b h = ground arith

pub not_at_or_before_of_lt : (a b : Date) → instant b < instant a → at_or_before a b ≡ false
unfolding at_or_before
not_at_or_before_of_lt a b h = ground arith

pub set_date-Normalised :
    (d : Date) (date : ℕ)
    → 1 ≤ date
    → Normalised (set_date d date) (days_before d.months + date) d.ms
unfolding set_date
set_date-Normalised d date h = new_date-Normalised d.months date d.ms h

pub set_hours_minutes-Normalised :
    (d : Date) (hour minute : ℕ)
    → 1 ≤ d.date
    → hour ≤ 23
    → minute ≤ 59
    → Normalised
        (set_hours_minutes d hour minute)
        (day_number d)
        (hour * hour_ms + minute * minute_ms + d.ms % minute_ms)
unfolding set_hours_minutes
set_hours_minutes-Normalised d hour minute h p q =
    let total : ℕ = hour * hour_ms + minute * minute_ms + d.ms % minute_ms in
    let n = with_ms-Normalised d total h in
    let short : total < day_ms = omega arith in
    record {
      is_date = n.is_date;
      same_day = omega (arith, n.same_day);
      same_time = omega (arith, n.same_time);
    }

pub day_number_lem : (d : Date) → day_number d ≡ days_before d.months + d.date
unfolding day_number
day_number_lem d = refl

pub get_day_lem : (d : Date) → get_day d ≡ (day_number d + 5) % 7
unfolding get_day
get_day_lem d = refl

-- ===== src/Format/NextRun/Weekly.antt =====
-- `case 'weekly'` of `nextRunOf` in web/src/lib/format.ts.
use prox_back.Prelude.{
  ℕ, ◌+◌, ◌-◌, ◌*◌, ◌%◌, ◌<◌, ◌≤◌, ◌≡◌, refl, ◌≢◌, Bool, true, false, not, List, [], ◌∷◌, some,
  arith, inl, inr, All, Bool-cases, both_of_and,
}
use prox_back.Js.Text.{Text}
use prox_back.Js.Array.Membership.{Contains, includes_iff}
use prox_back.Format.Time.{TimeParts, time_parts}
use prox_back.Format.Time.Laws.{time_parts_bounds}
use prox_back.Format.Calendar.{
  Date, day_ms, hour_ms, minute_ms, day_number, instant, get_day, clear_seconds, set_date,
  at_or_before,
}
use prox_back.Format.Calendar.Laws.{
  IsDate, Normalised, set_date-Normalised, set_hours_minutes-Normalised, clear_seconds-IsDate,
  clear_seconds_fields, instant_lem, day_number_lem, get_day_lem, le_of_at_or_before,
  lt_of_not_at_or_before, not_at_or_before_of_lt,
}
use prox_back.Format.NextRun.{weekly_candidate, weekly_passes, next_weekly}
use prox_back.Format.NextRun.Search.{first_from-IsFirst, IsLeast, IsFirst-IsLeast}

-- The milliseconds from midnight to a time.
abbrev pub time_ms : TimeParts → ℕ
time_ms parts = parts.hour * hour_ms + parts.minute * minute_ms

-- A date of the calendar at that time, on one of the weekdays.
pub record FiresWeekly (parts : TimeParts) (weekdays : List ℕ) (d : Date) : Type 0 where
  pub is_date : IsDate d
  pub at_time : d.ms ≡ time_ms parts
  pub on_day : Contains (get_day d) weekdays

module _ (now : Date) (parts : TimeParts) (v : IsDate now) (p : parts.hour ≤ 23)
    (q : parts.minute ≤ 59) where
  candidate-Normalised :
      (i : ℕ) → Normalised (weekly_candidate now parts i) (day_number now + i) (time_ms parts)
  unfolding weekly_candidate
  candidate-Normalised i =
      let start = clear_seconds now in
      let c = clear_seconds-IsDate now v in
      let (same_day, no_seconds, same_hour) = clear_seconds_fields now in
      let s = set_date-Normalised start (start.date + i) (omega (arith, c.from_first)) in
      let n =
        set_hours_minutes-Normalised (set_date start (start.date + i)) parts.hour parts.minute
          s.is_date.0 p q in
      record {
        is_date = n.is_date;
        same_day = omega (arith, n.same_day, s.same_day, same_day, day_number_lem start);
        same_time = omega (arith, n.same_time, s.same_time, no_seconds);
      }

  candidate-instant :
      (i : ℕ)
      → instant (weekly_candidate now parts i) ≡ (day_number now + i) * day_ms + time_ms parts
  candidate-instant i =
      let n = candidate-Normalised i in
      omega (arith, instant_lem (weekly_candidate now parts i), n.same_day, n.same_time)

  module _ (weekdays : List ℕ) where
    sound :
        (i : ℕ)
        → weekly_passes now weekdays (weekly_candidate now parts i) ≡ true
        → FiresWeekly parts weekdays (weekly_candidate now parts i)
          × (instant now < instant (weekly_candidate now parts i))
    unfolding weekly_passes
    sound i h =
        let n = candidate-Normalised i in
        let (day, late) = both_of_and _ _ h in
        (
          record {
            is_date = record {
              from_first = n.is_date.0;
              to_last = n.is_date.1;
              within_day = omega (arith, n.same_time);
            };
            at_time = n.same_time;
            on_day = (includes_iff _ weekdays).0 day;
          },
          lt_of_not_at_or_before _ now (not_true late),
        )
      where
        not_true : {b : Bool} → not b ≡ true → b ≡ false
        not_true h = ground arith

    passes_of :
        (i : ℕ)
        → Contains (get_day (weekly_candidate now parts i)) weekdays
        → instant now < instant (weekly_candidate now parts i)
        → weekly_passes now weekdays (weekly_candidate now parts i) ≡ true
    unfolding weekly_passes
    passes_of i day late = rw (
      (includes_iff _ weekdays).1 day,
      not_at_or_before_of_lt (weekly_candidate now parts i) now late,
    )

    complete :
        (e : Date)
        → FiresWeekly parts weekdays e
        → instant now < instant e
        → (i : ℕ) × (instant e ≡ instant (weekly_candidate now parts i))
          × (weekly_passes now weekdays (weekly_candidate now parts i) ≡ true)
    complete e f late =
        let i : ℕ = day_number e - day_number now in
        let n = candidate-Normalised i in
        let here = candidate-instant i in
        let there = instant_lem e in
        let today = instant_lem now in
        let same_day : day_number (weekly_candidate now parts i) ≡ day_number e =
          omega (arith, n.same_day, there, today, f.is_date.within_day, v.within_day) in
        let same : instant e ≡ instant (weekly_candidate now parts i) =
          omega (arith, here, there, same_day, n.same_day, f.at_time) in
        let weekday : get_day (weekly_candidate now parts i) ≡ get_day e =
          omega (arith, get_day_lem (weekly_candidate now parts i), get_day_lem e, same_day) in
        (i, same, passes_of i (rw weekday f.on_day) (rw same at late))

    mono :
        (i j : ℕ)
        → i ≤ j
        → instant (weekly_candidate now parts i) ≤ instant (weekly_candidate now parts j)
    mono i j h = omega (arith, candidate-instant i, candidate-instant j)

    -- One of the eight candidates passes: the weekday comes round within seven days.
    reached :
        (w : ℕ)
        → w ≤ 6
        → Contains w weekdays
        → (k : ℕ) × (k < 8) × (weekly_passes now weekdays (weekly_candidate now parts k) ≡ true)
    reached w small listed =
        let k : ℕ = (w + 7 - get_day now) % 7 in
        let today = get_day_lem now in
        elim (Bool-cases (at_or_before (weekly_candidate now parts k) now)) [
          | inl past ↦
              let le = le_of_at_or_before (weekly_candidate now parts k) now past in
              let zero_days : k ≡ 0 =
                omega (arith, le, candidate-instant k, instant_lem now, v.within_day) in
              let day : get_day (weekly_candidate now parts 7) ≡ w = omega (
                arith,
                today,
                get_day_lem (weekly_candidate now parts 7),
                (candidate-Normalised 7).same_day,
                zero_days,
              ) in
              (
                7,
                omega arith,
                passes_of 7 (rw day listed)
                    (omega (arith, candidate-instant 7, instant_lem now, v.within_day)),
              )
          | inr late ↦
              let day : get_day (weekly_candidate now parts k) ≡ w = omega (
                arith,
                today,
                get_day_lem (weekly_candidate now parts k),
                (candidate-Normalised k).same_day,
              ) in
              (
                k,
                omega arith,
                passes_of k (rw day listed)
                    (lt_of_not_at_or_before (weekly_candidate now parts k) now late),
              )
        ]

-- A weekly schedule with at least one weekday, each of them at most 6, has a next run: the least date
-- after now that is at its time on one of its weekdays.
pub next_weekly-IsLeast :
    (now : Date) (time : Text) (weekdays : List ℕ)
    → IsDate now
    → All (λ d. d ≤ 6) weekdays
    → weekdays ≢ []
    → (d : Date) × (next_weekly now (time_parts time) weekdays ≡ some d)
      × IsLeast (FiresWeekly (time_parts time) weekdays) now d
unfolding next_weekly
next_weekly-IsLeast now time [] v h ne = absurd (ne refl)
next_weekly-IsLeast now time (w ∷ ws) v h ne =
    let parts = time_parts time in
    let (p, q) = time_parts_bounds time in
    let (k, short, pass) = reached now parts v p q (w ∷ ws) w h.0 (inl refl) in
    let (d, found, first) =
      first_from-IsFirst 8 0 (weekly_candidate now parts) (weekly_passes now (w ∷ ws)) k
        (omega arith) (omega arith) pass in
    (
      d,
      found,
      IsFirst-IsLeast (FiresWeekly parts (w ∷ ws)) now (weekly_candidate now parts)
          (weekly_passes now (w ∷ ws)) d (sound now parts v p q (w ∷ ws))
          (complete now parts v p q (w ∷ ws)) (mono now parts v p q (w ∷ ws)) first,
    )

-- ===== src/Format/NextRun/Monthly.antt =====
-- `case 'monthly'` of `nextRunOf` in web/src/lib/format.ts.
use prox_back.Prelude.{
  ℕ, zero, suc, ◌+◌, ◌-◌, ◌*◌, ◌<◌, ◌≤◌, ◌≡◌, refl, ap, ◌∙◌, ℕ_discrete, Bool, true, false, not,
  some, min, arith, dec_lt,
}
use prox_back.Js.Text.{Text}
use prox_back.Format.Time.{TimeParts, time_parts}
use prox_back.Format.Time.Laws.{time_parts_bounds}
use prox_back.Format.Calendar.{Date, day_ms, month_length, instant, days_before, at_or_before}
use prox_back.Format.Calendar.Laws.{
  IsDate, month_length_bounds, new_date_within, last_day_of_month_lem, instant_parts,
  lt_of_not_at_or_before, not_at_or_before_of_lt,
}
use prox_back.Format.NextRun.{monthly_candidate, next_monthly}
use prox_back.Format.NextRun.Search.{first_from-IsFirst, IsLeast, IsFirst-IsLeast}
use prox_back.Format.NextRun.Weekly.{time_ms}

-- A date at that time on that day of its month, or on the last day of a month that is shorter.
pub record FiresMonthly (parts : TimeParts) (day_of_month : ℕ) (d : Date) : Type 0 where
  pub at_time : d.ms ≡ time_ms parts
  pub on_day : d.date ≡ min day_of_month (month_length d.months)

days_before-suc : (months : ℕ) → days_before (suc months) ≡ days_before months + month_length months
unfolding days_before
days_before-suc months = refl

days_before_mono : (n m : ℕ) → n ≤ m → days_before n ≤ days_before m
days_before_mono n zero h = let e : n ≡ 0 = omega arith in omega (arith, ap days_before e)
days_before_mono n (suc m) h = elim (ℕ_discrete n (suc m)) [
  | yes e ↦ omega (arith, ap days_before e)
  | no ne ↦ omega (arith, days_before_mono n m (omega arith), days_before-suc m)
]

-- An earlier month ends before a later one begins.
days_before_lt : (n m : ℕ) → n < m → days_before n + month_length n ≤ days_before m
days_before_lt n m h = omega (arith, days_before_mono (suc n) m h, days_before-suc n)

module _ (now : Date) (parts : TimeParts) (day_of_month : ℕ) (v : IsDate now) (p : parts.hour ≤ 23)
    (q : parts.minute ≤ 59) (r : 1 ≤ day_of_month) where
  candidate_lem :
      (i : ℕ)
      → monthly_candidate now parts day_of_month i ≡ record {
        months = now.months + i;
        date = min day_of_month (month_length (now.months + i));
        ms = time_ms parts;
      }
  unfolding monthly_candidate
  candidate_lem i =
      let long = month_length_bounds (now.months + i) in
      rw
        (
          new_date_within (now.months + i) 1 0 (omega arith) (omega (arith, long)),
          last_day_of_month_lem (now.months + i),
        )
        (new_date_within (now.months + i) (min day_of_month (month_length (now.months + i)))
          (time_ms parts) (omega (arith, long)) (omega arith))

  candidate_instant :
      (i : ℕ)
      → instant (monthly_candidate now parts day_of_month i)
        ≡ (days_before (now.months + i) + min day_of_month (month_length (now.months + i))) * day_ms
          + time_ms parts
  candidate_instant i = ap instant (candidate_lem i) ∙ instant_parts _

  sound :
      (i : ℕ)
      → not (at_or_before (monthly_candidate now parts day_of_month i) now) ≡ true
      → FiresMonthly parts day_of_month (monthly_candidate now parts day_of_month i)
        × (instant now < instant (monthly_candidate now parts day_of_month i))
  sound i h = (
    rw (candidate_lem i) (record { at_time = refl; on_day = refl }),
    lt_of_not_at_or_before _ now (not_true h),
  )
    where
      not_true : {b : Bool} → not b ≡ true → b ≡ false
      not_true h = ground arith

  complete :
      (e : Date)
      → FiresMonthly parts day_of_month e
      → instant now < instant e
      → (i : ℕ) × (instant e ≡ instant (monthly_candidate now parts day_of_month i))
        × (not (at_or_before (monthly_candidate now parts day_of_month i) now) ≡ true)
  complete e f late = elim (dec_lt e.months now.months) [
    | yes before ↦ absurd (
        omega (
          arith,
          days_before_lt e.months now.months before,
          instant_parts e,
          instant_parts now,
          f.on_day,
          f.at_time,
          late,
        ))
    | no after ↦
        let i : ℕ = e.months - now.months in
        let same_month : e.months ≡ now.months + i = omega arith in
        let same : instant e ≡ instant (monthly_candidate now parts day_of_month i) = omega (
          arith,
          candidate_instant i,
          instant_parts e,
          ap days_before same_month,
          ap month_length same_month,
          f.on_day,
          f.at_time,
        ) in
        (
          i,
          same,
          rw (
              not_at_or_before_of_lt (monthly_candidate now parts day_of_month i) now
                (rw same at late)),
        )
  ]

  mono :
      (i j : ℕ)
      → i ≤ j
      → instant (monthly_candidate now parts day_of_month i)
        ≤ instant (monthly_candidate now parts day_of_month j)
  mono i j h = elim (ℕ_discrete i j) [
    | yes e ↦ omega (arith, ap (λ k. instant (monthly_candidate now parts day_of_month k)) e)
    | no ne ↦ omega (
      arith,
      candidate_instant i,
      candidate_instant j,
      days_before_lt (now.months + i) (now.months + j) (omega arith),
    )
  ]

  -- The candidate of the next month is later than now.
  next_month : instant now < instant (monthly_candidate now parts day_of_month 1)
  next_month =
      let follows : now.months + 1 ≡ suc now.months = omega arith in
      omega (
        arith,
        candidate_instant 1,
        instant_parts now,
        ap days_before follows,
        days_before-suc now.months,
        month_length_bounds (now.months + 1),
        v.to_last,
        v.within_day,
      )

-- A monthly schedule whose day is at least 1 has a next run: the least date after now that is at its
-- time on its day of the month, or on the last day of a month that has no such day.
pub next_monthly-IsLeast :
    (now : Date) (time : Text) (day_of_month : ℕ)
    → IsDate now
    → 1 ≤ day_of_month
    → (d : Date) × (next_monthly now (time_parts time) day_of_month ≡ some d)
      × IsLeast (FiresMonthly (time_parts time) day_of_month) now d
unfolding next_monthly
next_monthly-IsLeast now time day_of_month v r =
    let parts = time_parts time in
    let (p, q) = time_parts_bounds time in
    let (d, found, first) =
      first_from-IsFirst 14 0 (monthly_candidate now parts day_of_month)
        (λ c. not (at_or_before c now)) 1 (omega arith) (omega arith)
        (rw (
          not_at_or_before_of_lt (monthly_candidate now parts day_of_month 1) now
            (next_month now parts day_of_month v p q r))) in
    (
      d,
      found,
      IsFirst-IsLeast (FiresMonthly parts day_of_month) now
          (monthly_candidate now parts day_of_month) (λ c. not (at_or_before c now)) d
          (sound now parts day_of_month v p q r) (complete now parts day_of_month v p q r)
          (mono now parts day_of_month v p q r) first,
    )

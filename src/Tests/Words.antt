-- ===== src/Tests/Words.antt =====
-- The words for schedules at concrete inputs.
use prox_back.Prelude.{ℕ, ◌≡◌, refl, ◌↔◌, ◌⊎◌, ◌≤◌, List, [], ◌∷◌, ◌++◌, arith}
use prox_back.Js.Text.{Text, codes, print_nat}
use prox_back.Js.Array.Membership.{Contains}
use prox_back.Api.Wire.{is_hhmm}
use prox_back.Api.Schedule.{Schedule, to_value}
use prox_back.Api.Schedule.Normal.{IsNormal, parse_schedule-to_value}
use prox_back.Format.Calendar.{Date, get_day, get_month, month_length}
use prox_back.Format.Calendar.Laws.{IsDate}
use prox_back.Format.NextRun.{next_run_of}
use prox_back.Format.Words.{
  text_at, short_months, weekday_long, ordinal, describe_schedule, describe_schedule_sentence,
  format_wall_clock,
}
use prox_back.Format.Words.Labels.{AreExactly, describe_schedule-exact}
use prox_back.Format.Words.Preview.{format_wall_clock-next_run_of}

-- 2 March 2027, half past three in the afternoon.
abbrev now : Date
now = record { months = 24_326; date = 2; ms = 55_800_000 }

now-IsDate : IsDate now
unfolding month_length
now-IsDate = record { from_first = omega arith; to_last = ground arith; within_day = omega arith }

abbrev midnight : Text
midnight = codes "00:00"

abbrev two_days : List ℕ
two_days = 0 ∷ 6 ∷ []

two_days-IsNormal : IsNormal (Schedule.weekly midnight two_days)
two_days-IsNormal = (unfold is_hhmm in refl, (omega arith), (omega arith), λ e. cc)

preview_example :
    (d : Date) × (Contains (get_day d) two_days
      × (format_wall_clock (next_run_of (Schedule.weekly midnight two_days) now)
          ≡ weekday_long (get_day d)
            ++ (codes " "
                ++ (print_nat d.date
                    ++ (codes " "
                        ++ (text_at short_months (get_month d) [] ++ (codes ", " ++ midnight)))))))
preview_example = format_wall_clock-next_run_of now midnight two_days now-IsDate two_days-IsNormal

label_example :
    ((describe_schedule (to_value (Schedule.weekly midnight two_days))
        ≡ codes "Every day at " ++ midnight)
      ↔ AreExactly (λ d. d ≤ 6) two_days)
    × (((describe_schedule (to_value (Schedule.weekly midnight two_days))
            ≡ codes "Mon to Fri at " ++ midnight)
          ↔ AreExactly (λ d. (1 ≤ d) × (d ≤ 5)) two_days)
        × ((describe_schedule (to_value (Schedule.weekly midnight two_days))
              ≡ codes "Weekends at " ++ midnight)
            ↔ AreExactly (λ d. (d ≡ 0) ⊎ (d ≡ 6)) two_days))
label_example =
    describe_schedule-exact (to_value (Schedule.weekly midnight two_days)) midnight two_days
      (parse_schedule-to_value (Schedule.weekly midnight two_days) two_days-IsNormal)

ordinal_test : ordinal 22 ≡ codes "22nd"
unfolding ordinal
ordinal_test = refl

sentence_test :
    describe_schedule_sentence (Schedule.weekly midnight (6 ∷ 1 ∷ 0 ∷ []))
    ≡ codes "Runs every Sunday, Monday and Saturday at 00:00."
unfolding describe_schedule_sentence
sentence_test = refl

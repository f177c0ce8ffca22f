-- ===== src/Api/Schedule/Normal.antt =====
-- The normal form of a schedule: `parseSchedule` of web/src/api.ts and the object that the client
-- sends.
use prox_back.Prelude.{
  ℕ, ◌≤◌, ◌≡◌, refl, ◌≢◌, ap, ap₂, List, [], ◌∷◌, arith, All, map, inl, inr, Bool-cases, ◌||◌,
  is_empty,
}
use prox_back.Js.Text.{Text, codes, trim, same_text}
use prox_back.Js.Text.Trimming.{trim_idem}
use prox_back.Js.Number.{whole}
use prox_back.Js.Array.Sorting.{
  Ascending, All-unique, All-sort, unique-Distinct, sort-Ascending, unique_of_Ascending,
  sort_of_Ascending,
}
use prox_back.Js.Value.{
  Value, undefined, null, bool, num, str, arr, obj, of_list, to_list, property,
}
use prox_back.Api.Wire.{clamp_int, is_hhmm}
use prox_back.Api.Wire.Laws.{IsTime, clamp_int_bounds, clamp_int-whole, time_of-IsTime, time_of_id}
use prox_back.Api.Schedule.{
  Schedule, array_or_empty, or_sunday, weekday_list, trimmed_or_empty, parse_object, ScheduleKind,
  parse_as, parse_text, parse_schedule, to_value,
}

-- What the rest of the console may rely on.
abbrev pub IsNormal : Schedule → Type 0
IsNormal Schedule.manual = Unit
IsNormal (Schedule.hourly minute) = minute ≤ 59
IsNormal (Schedule.daily time) = IsTime time
IsNormal (Schedule.weekly time days) =
    IsTime time × Ascending days × All (λ d. d ≤ 6) days × (days ≢ [])
IsNormal (Schedule.monthly time day) = IsTime time × (1 ≤ day) × (day ≤ 31)
IsNormal (Schedule.advanced cron) = trim cron ≡ cron

abbrev AreWeekdays : List ℕ → Type 0
AreWeekdays days = Ascending days × All (λ d. d ≤ 6) days × (days ≢ [])

or_sunday-AreWeekdays :
    (ds : List ℕ) → Ascending ds → All (λ d. d ≤ 6) ds → AreWeekdays (or_sunday ds)
unfolding or_sunday
or_sunday-AreWeekdays [] a b = ((tt, tt), (omega arith, tt), λ e. cc)
or_sunday-AreWeekdays (d ∷ ds) a b = (a, b, λ e. cc)

clamped-le_6 : (vs : List Value) → All (λ d. d ≤ 6) (map (λ day. clamp_int day 0 6 0) vs)
clamped-le_6 [] = tt
clamped-le_6 (v ∷ vs) = ((clamp_int_bounds v 0 6 0 (omega arith) (omega arith)).1, clamped-le_6 vs)

weekday_list-AreWeekdays : (v : Value) → AreWeekdays (weekday_list v)
unfolding weekday_list
weekday_list-AreWeekdays v =
    let days : List ℕ = map (λ day. clamp_int day 0 6 0) (array_or_empty v) in
    or_sunday-AreWeekdays _ (sort-Ascending _ (unique-Distinct days))
      (All-sort (λ d. d ≤ 6) _ (All-unique (λ d. d ≤ 6) days (clamped-le_6 (array_or_empty v))))

trimmed_or_empty-trim : (v : Value) → trim (trimmed_or_empty v) ≡ trimmed_or_empty v
unfolding trimmed_or_empty
trimmed_or_empty-trim (str s) = trim_idem s
trimmed_or_empty-trim _ = unfold trim in refl

parse_as-IsNormal : (kind : ScheduleKind) (raw : Value) → IsNormal (parse_as kind raw)
unfolding parse_as
parse_as-IsNormal ScheduleKind.hourly raw =
    (clamp_int_bounds _ 0 59 0 (omega arith) (omega arith)).1
parse_as-IsNormal ScheduleKind.daily raw = time_of-IsTime _ (codes "02:00") (unfold is_hhmm in refl)
parse_as-IsNormal ScheduleKind.weekly raw =
    let days : AreWeekdays (weekday_list (property (codes "weekdays") raw)) =
      weekday_list-AreWeekdays _ in
    (time_of-IsTime _ (codes "03:00") (unfold is_hhmm in refl), days.0, days.1, days.2)
parse_as-IsNormal ScheduleKind.monthly raw =
    let day =
      clamp_int_bounds (property (codes "dayOfMonth") raw) 1 31 1 (omega arith) (omega arith) in
    (time_of-IsTime _ (codes "01:00") (unfold is_hhmm in refl), day.0, day.1)
parse_as-IsNormal ScheduleKind.advanced raw = trimmed_or_empty-trim (property (codes "cron") raw)
parse_as-IsNormal ScheduleKind.manual raw = tt

parse_object-IsNormal : (raw : Value) → IsNormal (parse_object raw)
unfolding parse_object
parse_object-IsNormal raw = parse_as-IsNormal _ raw

parse_text-IsNormal : (s : Text) → IsNormal (parse_text s)
unfolding parse_text
parse_text-IsNormal s =
    elim (Bool-cases (is_empty s || is_empty (trim s) || same_text (trim s) (codes "manual"))) [
      | inl e ↦ rw e tt
      | inr e ↦ rw e (trim_idem s)
    ]

-- Whatever the server sends is read as a schedule in normal form: minutes and days in range, times
-- of the form `HH:MM`, weekdays distinct, in order and at least one, a cron text without white space
-- round it.
pub parse_schedule-IsNormal : (v : Value) → IsNormal (parse_schedule v)
unfolding parse_schedule
parse_schedule-IsNormal undefined = tt
parse_schedule-IsNormal null = tt
parse_schedule-IsNormal (str s) = parse_text-IsNormal s
parse_schedule-IsNormal (bool b) = parse_object-IsNormal (bool b)
parse_schedule-IsNormal (num n) = parse_object-IsNormal (num n)
parse_schedule-IsNormal (arr vs) = parse_object-IsNormal (arr vs)
parse_schedule-IsNormal (obj fs) = parse_object-IsNormal (obj fs)

clamped_of_AreWeekdays :
    (ds : List ℕ)
    → All (λ d. d ≤ 6) ds
    → map (λ day. clamp_int day 0 6 0) (to_list (of_list (map (λ d. num (whole d)) ds))) ≡ ds
clamped_of_AreWeekdays [] h = refl
clamped_of_AreWeekdays (d ∷ ds) h =
    ap₂ ◌∷◌ (clamp_int-whole 0 6 0 d (omega arith) h.0) (clamped_of_AreWeekdays ds h.1)

or_sunday_of_ne : (ds : List ℕ) → ds ≢ [] → or_sunday ds ≡ ds
unfolding or_sunday
or_sunday_of_ne [] h = absurd (h refl)
or_sunday_of_ne (d ∷ ds) h = refl

weekday_list_of_AreWeekdays :
    (ds : List ℕ) → AreWeekdays ds → weekday_list (arr (of_list (map (λ d. num (whole d)) ds))) ≡ ds
unfolding weekday_list
weekday_list_of_AreWeekdays ds h =
    rw (clamped_of_AreWeekdays ds h.1, unique_of_Ascending ds h.0, sort_of_Ascending ds h.0)
      (or_sunday_of_ne ds h.2)

-- A schedule in normal form survives being sent and read back.
pub parse_schedule-to_value : (s : Schedule) → IsNormal s → parse_schedule (to_value s) ≡ s
unfolding parse_schedule to_value parse_object trimmed_or_empty
parse_schedule-to_value Schedule.manual h = refl
parse_schedule-to_value (Schedule.hourly minute) h =
    ap Schedule.hourly (clamp_int-whole 0 59 0 minute (omega arith) h)
parse_schedule-to_value (Schedule.daily time) h = ap Schedule.daily (time_of_id time _ h)
parse_schedule-to_value (Schedule.weekly time days) h =
    ap₂ Schedule.weekly (time_of_id time _ h.0) (weekday_list_of_AreWeekdays days (h.1, h.2, h.3))
parse_schedule-to_value (Schedule.monthly time day) h =
    ap₂ Schedule.monthly (time_of_id time _ h.0) (clamp_int-whole 1 31 1 day h.1 h.2)
parse_schedule-to_value (Schedule.advanced cron) h = ap Schedule.advanced h

-- Reading is idempotent: what was read, sent and read again is the same schedule.
pub parse_schedule_idem :
    (v : Value) → parse_schedule (to_value (parse_schedule v)) ≡ parse_schedule v
parse_schedule_idem v = parse_schedule-to_value (parse_schedule v) (parse_schedule-IsNormal v)

-- ===== src/ScheduleEditor/TimeField.antt =====
-- The time control of web/src/components/ScheduleEditor.tsx.
use prox_back.Prelude.{
  ℕ, suc, ◌/◌, ◌%◌, ◌<◌, ◌≡◌, refl, Bool, true, false, Option, none, some, ◌==◌, if◌then◌else◌, pos,
  negsuc, arith, ◌&&◌, passes_under, passes_under-at, ap, sym, ◌∙◌,
}
use prox_back.Js.Text.{Text}
use prox_back.Js.Number.{Number, finite, number_of_text}
use prox_back.Api.Wire.Laws.{IsTime}
use prox_back.Format.Time.{
  TimeParts, time_parts, pad_time, before_colon, after_colon, second_number,
}
use prox_back.Format.Time.Laws.{time_parts_bounds, time_parts-pad_time, pad_time-time_parts}

-- A part of a time as `partsOf` reads it: 0 if it is no finite number. `none` is a number with a sign
-- or a fraction, which no `HH:MM` text has.
part_of : Number → Option ℕ
part_of (finite (pos n) d) = if n % suc d == 0 then some (n / suc d) else none
part_of (finite (negsuc n) d) = none
part_of _ = some 0

both : Option ℕ → Option ℕ → Option TimeParts
both (some hour) (some minute) = some (record { hour = hour; minute = minute })
both _ _ = none

-- `partsOf`.
unfoldable pub parts_of : Text → Option TimeParts
unfolding part_of both
parts_of time =
    both (part_of (number_of_text (before_colon time))) (part_of (second_number (after_colon time)))

-- The two `onChange` of `TimeField`, given the number of the chosen option.
unfoldable pub choose_hour : Text → ℕ → Option Text
choose_hour value hour = elim (parts_of value) [
  | none ↦ none
  | some parts ↦ some (pad_time hour parts.minute)
]

unfoldable pub choose_minute : Text → ℕ → Option Text
choose_minute value minute = elim (parts_of value) [
  | none ↦ none
  | some parts ↦ some (pad_time parts.hour minute)
]

reads_back : ℕ → ℕ → Bool
reads_back hour minute = elim (parts_of (pad_time hour minute)) [
  | none ↦ false
  | some parts ↦ parts.hour == hour && parts.minute == minute
]

reads_back_table : passes_under 24 (λ h. passes_under 60 (λ m. reads_back h m)) ≡ true
unfolding passes_under reads_back parts_of pad_time number_of_text before_colon second_number
    after_colon
reads_back_table = refl

reads_back-true : (h m : ℕ) → h < 24 → m < 60 → reads_back h m ≡ true
reads_back-true h m p q =
    passes_under-at m 60 q (reads_back h)
      (passes_under-at h 24 p (λ k. passes_under 60 (λ n. reads_back k n)) reads_back_table)

parts_of-pad_time :
    (h m : ℕ) → h < 24 → m < 60 → parts_of (pad_time h m) ≡ some (record { hour = h; minute = m })
parts_of-pad_time h m p q = unpack (reads_back-true h m p q)
  where
    unpack :
        reads_back h m ≡ true → parts_of (pad_time h m) ≡ some (record { hour = h; minute = m })
    unpack e = unfold reads_back in ground arith

parts_of-IsTime : (t : Text) → IsTime t → parts_of t ≡ some (time_parts t)
parts_of-IsTime t h =
    let (p, q) = time_parts_bounds t in
    ap parts_of (sym (pad_time-time_parts t h))
    ∙ parts_of-pad_time (time_parts t).hour (time_parts t).minute (omega arith) (omega arith)

-- From an `HH:MM` text, the hour control with a value below 24 and the minute control with a value
-- below 60 both hand over an `HH:MM` text that has the chosen part and keeps the other.
pub choose-IsTime :
    (value : Text) (hour minute : ℕ)
    → IsTime value
    → hour < 24
    → minute < 60
    → ((t : Text) × (choose_hour value hour ≡ some t)
        × IsTime t
        × (time_parts t ≡ record { hour = hour; minute = (time_parts value).minute }))
      × ((t : Text) × (choose_minute value minute ≡ some t)
          × IsTime t
          × (time_parts t ≡ record { hour = (time_parts value).hour; minute = minute }))
unfolding choose_hour choose_minute
choose-IsTime value hour minute h p q =
    let (r, s) = time_parts_bounds value in
    let (hour_time, hour_read) =
      time_parts-pad_time hour (time_parts value).minute p (omega arith) in
    let (minute_time, minute_read) =
      time_parts-pad_time (time_parts value).hour minute (omega arith) q in
    rw (parts_of-IsTime value h, choose_hour, choose_minute)
      (
        (pad_time hour (time_parts value).minute, refl, hour_time, hour_read),
        (pad_time (time_parts value).hour minute, refl, minute_time, minute_read),
      )

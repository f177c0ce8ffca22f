-- ===== src/Format/Time/Laws.antt =====
-- `timeParts` and `padTime` of web/src/lib/format.ts together.
use prox_back.Prelude.{
  ℕ, ◌<◌, ◌≤◌, ◌≡◌, refl, Bool, true, [], ◌∷◌, ◌&&◌, ◌||◌, not, ◌==◌, ◌+◌, ◌-◌, arith, passes_under,
  passes_under-at,
}
use prox_back.Js.Text.{Text, same_text}
use prox_back.Js.Number.{Number, finite, truncate, number_of_text}
use prox_back.Js.Number.Bounds.{clamp_bounds}
use prox_back.Js.Text.Equality.{eq_of_same_text}
use prox_back.Api.Wire.{is_hhmm}
use prox_back.Format.Time.{
  before_colon, after_colon, second_number, part_up_to, time_parts, pad_time,
}

part_up_to_le : (most : ℕ) (n : Number) → part_up_to most n ≤ most
unfolding part_up_to
part_up_to_le most (finite m d) = (clamp_bounds 0 most (truncate m d) (omega arith)).1
part_up_to_le most _ = omega arith

-- The hour is at most 23 and the minute at most 59, for any text.
pub time_parts_bounds : (t : Text) → ((time_parts t).hour ≤ 23) × ((time_parts t).minute ≤ 59)
unfolding time_parts
time_parts_bounds t = (
  part_up_to_le 23 (number_of_text (before_colon t)),
  part_up_to_le 59 (second_number (after_colon t)),
)

prints_and_reads : ℕ → ℕ → Bool
prints_and_reads h m =
    is_hhmm (pad_time h m)
    && (time_parts (pad_time h m)).hour == h
    && (time_parts (pad_time h m)).minute == m

print_table : passes_under 24 (λ h. passes_under 60 (λ m. prints_and_reads h m)) ≡ true
unfolding passes_under prints_and_reads is_hhmm pad_time time_parts
print_table = refl

prints_and_reads-true : (h m : ℕ) → h < 24 → m < 60 → prints_and_reads h m ≡ true
prints_and_reads-true h m p q =
    passes_under-at m 60 q (prints_and_reads h)
      (passes_under-at h 24 p (λ k. passes_under 60 (λ n. prints_and_reads k n)) print_table)

-- For an hour below 24 and a minute below 60, `padTime` prints a text of the form `HH:MM`, from which
-- `timeParts` reads that hour and that minute.
pub time_parts-pad_time :
    (h m : ℕ)
    → h < 24
    → m < 60
    → (is_hhmm (pad_time h m) ≡ true)
      × (time_parts (pad_time h m) ≡ record { hour = h; minute = m })
time_parts-pad_time h m p q = unpack (prints_and_reads-true h m p q)
  where
    unpack :
        prints_and_reads h m ≡ true
        → (is_hhmm (pad_time h m) ≡ true)
          × (time_parts (pad_time h m) ≡ record { hour = h; minute = m })
    unpack e = unfold prints_and_reads in ground arith

-- The five code units of a time, in digits.
time_text : ℕ → ℕ → ℕ → ℕ → Text
time_text a b d e = (48 + a) ∷ (48 + b) ∷ 58 ∷ (48 + d) ∷ (48 + e) ∷ []

reads_and_prints : Text → Bool
reads_and_prints t =
    not (is_hhmm t) || same_text (pad_time (time_parts t).hour (time_parts t).minute) t

read_table :
    passes_under 3 (λ a.
      passes_under 10
        (λ b. passes_under 6 (λ d. passes_under 10 (λ e. reads_and_prints (time_text a b d e)))))
    ≡ true
unfolding passes_under reads_and_prints is_hhmm pad_time time_parts same_text time_text
read_table = refl

reads_and_prints-true :
    (a b d e : ℕ) → a < 3 → b < 10 → d < 6 → e < 10 → reads_and_prints (time_text a b d e) ≡ true
reads_and_prints-true a b d e ha hb hd he =
    passes_under-at e 10 he _
      (passes_under-at d 6 hd _ (passes_under-at b 10 hb _ (passes_under-at a 3 ha _ read_table)))

digits_of_hhmm :
    (a b c d e : ℕ)
    → is_hhmm (a ∷ b ∷ c ∷ d ∷ e ∷ []) ≡ true
    → (a ≡ 48 + (a - 48))
      × (a - 48 < 3)
      × (b ≡ 48 + (b - 48))
      × (b - 48 < 10)
      × (c ≡ 58)
      × (d ≡ 48 + (d - 48))
      × (d - 48 < 6)
      × (e ≡ 48 + (e - 48))
      × (e - 48 < 10)
unfolding is_hhmm
digits_of_hhmm a b c d e h = ground arith

time_text_of_hhmm :
    (a b c d e : ℕ)
    → is_hhmm (a ∷ b ∷ c ∷ d ∷ e ∷ []) ≡ true
    → reads_and_prints (a ∷ b ∷ c ∷ d ∷ e ∷ []) ≡ true
time_text_of_hhmm a b c d e h =
    let (ea, ha, eb, hb, ec, ed, hd, ee, he) = digits_of_hhmm a b c d e h in
    let same : a ∷ b ∷ c ∷ d ∷ e ∷ [] ≡ time_text (a - 48) (b - 48) (d - 48) (e - 48) =
      unfold time_text in cc in
    rw same (reads_and_prints-true (a - 48) (b - 48) (d - 48) (e - 48) ha hb hd he)

-- Conversely every `HH:MM` text is the print of the hour and minute that are read from it.
pub pad_time-time_parts :
    (t : Text) → is_hhmm t ≡ true → pad_time (time_parts t).hour (time_parts t).minute ≡ t
unfolding reads_and_prints
pad_time-time_parts (a ∷ b ∷ c ∷ d ∷ e ∷ []) h =
    eq_of_same_text _ _
      (second (is_hhmm (a ∷ b ∷ c ∷ d ∷ e ∷ [])) _ h (time_text_of_hhmm a b c d e h))
  where
    second : (p q : Bool) → p ≡ true → (not p || q) ≡ true → q ≡ true
    second p q h k = ground arith
pad_time-time_parts _ h = unfold is_hhmm in cc

-- ===== src/Monitor/Samples.antt =====
-- The samples of web/src/components/RunLive.tsx and the polls.
use prox_back.Prelude.{
  ℕ, zero, suc, ◌+◌, ◌-◌, min, pos, negsuc, subst, ◌≤◌, ◌≡◌, refl, sym, ap, ◌∙◌, true, false, List,
  [], ◌∷◌, ◌++◌, Option, none, some, if◌then◌else◌, ltb, length, length-append, Bool-cases, inl,
  inr, arith, dec_lt,
}
use prox_back.Js.Text.{Text, same_text}
use prox_back.Js.Text.Equality.{eq_of_same_text}
use prox_back.Js.Number.{Number, finite, nan, infinity, minus_infinity, whole}
use prox_back.Js.Map.{get_entry, set_entry}
use prox_back.Js.Map.Entries.{get_entry-set_entry, get_entry-set_entry_other}
use prox_back.Monitor.{
  RunDetail, sample_of, slice_from, capped, append_sample, add_samples, next_samples, samples_after,
}

slice_from-append :
    {A : Type 0} (n : ℕ) (xs ys : List A)
    → n ≤ length xs
    → slice_from n (xs ++ ys) ≡ slice_from n xs ++ ys
unfolding slice_from
slice_from-append zero xs ys h = refl
slice_from-append (suc n) [] ys h = absurd (omega arith)
slice_from-append (suc n) (x ∷ xs) ys h = slice_from-append n xs ys (omega arith)

slice_from-one :
    {A : Type 0} (n : ℕ) (xs : List A) → slice_from 1 (slice_from n xs) ≡ slice_from (suc n) xs
unfolding slice_from
slice_from-one zero xs = refl
slice_from-one (suc n) [] = refl
slice_from-one (suc n) (x ∷ xs) = slice_from-one n xs

length-slice_from :
    {A : Type 0} (n : ℕ) (xs : List A) → n ≤ length xs → length (slice_from n xs) + n ≡ length xs
unfolding slice_from
length-slice_from zero xs h = omega arith
length-slice_from (suc n) [] h = absurd (omega arith)
length-slice_from (suc n) (x ∷ xs) h = let k = length-slice_from n xs (omega arith) in omega arith

capped_of : (n : ℕ) (xs : List Number) → length xs ≡ n + 60 → capped xs ≡ slice_from n xs
unfolding capped slice_from
capped_of zero xs e = rw e refl
capped_of (suc n) xs e =
    let long : ltb 60 (length xs) ≡ true = ground arith in
    let over : length xs - 60 ≡ suc n = omega arith in rw (long, over) refl

capped_id : (xs : List Number) → length xs ≤ 60 → capped xs ≡ xs
unfolding capped
capped_id xs h = let short : ltb 60 (length xs) ≡ false = ground arith in rw short refl

-- To cut at each step is to cut at the end.
capped-append :
    (xs : List Number) (v : Number) → capped (capped xs ++ (v ∷ [])) ≡ capped (xs ++ (v ∷ []))
capped-append xs v = elim (dec_lt 60 (length xs)) [
  | no short ↦ ap (λ ys. capped (ys ++ (v ∷ []))) (capped_id xs (omega arith))
  | yes long ↦
      let n : ℕ = length xs - 60 in
      let cut = capped_of n xs (omega arith) in
      let left = length-slice_from n xs (omega arith) in
      let here = length-append (slice_from n xs) (v ∷ []) in
      let there = length-append xs (v ∷ []) in
      ap (λ ys. capped (ys ++ (v ∷ []))) cut
      ∙ capped_of 1 (slice_from n xs ++ (v ∷ [])) (omega arith)
      ∙ ap (slice_from 1) (sym (slice_from-append n xs (v ∷ []) (omega arith)))
      ∙ slice_from-one n (xs ++ (v ∷ []))
      ∙ sym (capped_of (suc n) (xs ++ (v ∷ [])) (omega arith))
]

abbrev or_rate : Option Number → Option Number → Option Number
or_rate (some rate) other = some rate
or_rate none other = other

-- The rate of a run in a poll.
abbrev pub rate_of : Text → List RunDetail → Option Number
rate_of key [] = none
rate_of key (detail ∷ live) =
    or_rate (rate_of key live)
      (if same_text detail.id key then some detail.throughput_bps else none)

-- The samples with one more rate, if there is one.
abbrev sampled : Option (List Number) → Option (List Number) → Option Number → Option (List Number)
sampled current next none = next
sampled current next (some rate) = some (append_sample current rate)

get_entry-add_samples :
    (key : Text) (current next : List (Text × List Number)) (live : List RunDetail)
    → get_entry key (add_samples current next live)
      ≡ sampled (get_entry key current) (get_entry key next) (rate_of key live)
unfolding add_samples
get_entry-add_samples key current next [] = refl
get_entry-add_samples key current next (detail ∷ live) =
    let kept : List Number = append_sample (get_entry detail.id current) detail.throughput_bps in
    get_entry-add_samples key current (set_entry detail.id kept next) live ∙ here (rate_of key live)
  where
    here :
        (rate : Option Number)
        → sampled
            (get_entry key current)
            (get_entry key (
              set_entry detail.id
                (append_sample (get_entry detail.id current) detail.throughput_bps)
                next))
            rate
          ≡ sampled
              (get_entry key current)
              (get_entry key next)
              (or_rate rate (if same_text detail.id key then some detail.throughput_bps else none))
    here (some t) = refl
    here none = elim (Bool-cases (same_text detail.id key)) [
      | inl e ↦
          let k = eq_of_same_text detail.id key e in
          rw e (
            ap
              (λ i. get_entry i (
                set_entry detail.id
                  (append_sample (get_entry detail.id current) detail.throughput_bps) next))
              (sym k)
            ∙ get_entry-set_entry detail.id _ next
            ∙ ap (λ i. some (append_sample (get_entry i current) detail.throughput_bps)) k)
      | inr e ↦ rw e (get_entry-set_entry_other detail.id key _ next e)
    ]

-- A rate as it is drawn: a finite number that is not negative, and otherwise zero.
abbrev drawn : Number → Number
drawn (finite (pos n) d) = finite (pos n) d
drawn (finite (negsuc n) d) = whole 0
drawn nan = whole 0
drawn infinity = whole 0
drawn minus_infinity = whole 0

sample_of-drawn : (rate : Number) → sample_of rate ≡ drawn rate
unfolding sample_of
sample_of-drawn (finite (pos n) d) = refl
sample_of-drawn (finite (negsuc n) d) = refl
sample_of-drawn nan = refl
sample_of-drawn infinity = refl
sample_of-drawn minus_infinity = refl

abbrev extended : List Number → Option Number → List Number
extended before none = []
extended before (some rate) = before ++ (drawn rate ∷ [])

-- The rates of a run in the polls that it was live in up to the last one, without a gap.
abbrev pub streak : Text → List (List RunDetail) → List Number
streak key [] = []
streak key (live ∷ polls) = extended (streak key polls) (rate_of key live)

-- What is kept of them.
abbrev window : List Number → Option (List Number)
window [] = none
window (rate ∷ rates) = some (capped (rate ∷ rates))

append_sample-window :
    (rates : List Number) (rate : Number)
    → some (append_sample (window rates) rate) ≡ window (rates ++ (drawn rate ∷ []))
unfolding append_sample
append_sample-window [] rate = rw (sample_of-drawn rate) refl
append_sample-window (r ∷ rates) rate =
    ap some (capped-append (r ∷ rates) (sample_of rate))
    ∙ ap (λ v. some (capped ((r ∷ rates) ++ (v ∷ [])))) (sample_of-drawn rate)

-- What is kept of rates: nothing of none, and otherwise an end of them, of sixty or all of them.
abbrev pub IsWindow : List Number → Option (List Number) → Type 0
IsWindow [] entry = entry ≡ none
IsWindow (rate ∷ rates) entry =
    (kept dropped : List Number) × (entry ≡ some kept)
    × (dropped ++ kept ≡ rate ∷ rates)
    × (length kept ≡ min 60 (length (rate ∷ rates)))

dropped-slice_from : (n : ℕ) (xs : List Number) → (d : List Number) × (d ++ slice_from n xs ≡ xs)
unfolding slice_from
dropped-slice_from zero xs = ([], refl)
dropped-slice_from (suc n) [] = ([], refl)
dropped-slice_from (suc n) (x ∷ xs) =
    let (d, e) = dropped-slice_from n xs in (x ∷ d, ap (λ ys. x ∷ ys) e)

window-IsWindow : (rates : List Number) → IsWindow rates (window rates)
window-IsWindow [] = refl
window-IsWindow (rate ∷ rates) = elim (dec_lt 60 (length (rate ∷ rates))) [
  | no short ↦ (
    capped (rate ∷ rates),
    [],
    refl,
    capped_id (rate ∷ rates) (omega arith),
    ap length (capped_id (rate ∷ rates) (omega arith)) ∙ omega arith,
  )
  | yes long ↦
      let n : ℕ = length (rate ∷ rates) - 60 in
      let cut = capped_of n (rate ∷ rates) (omega arith) in
      let (d, e) = dropped-slice_from n (rate ∷ rates) in
      let left = length-slice_from n (rate ∷ rates) (omega arith) in
      (capped (rate ∷ rates), d, refl, ap (λ ys. d ++ ys) cut ∙ e, ap length cut ∙ omega arith)
]

samples_after-window :
    (key : Text) (polls : List (List RunDetail))
    → get_entry key (samples_after polls) ≡ window (streak key polls)
unfolding samples_after next_samples get_entry
samples_after-window key [] = refl
samples_after-window key (live ∷ polls) =
    let before = samples_after-window key polls in
    get_entry-add_samples key (samples_after polls) [] live ∙ now before (rate_of key live)
  where
    now :
        get_entry key (samples_after polls) ≡ window (streak key polls)
        → (rate : Option Number)
        → sampled (get_entry key (samples_after polls)) none rate
          ≡ window (extended (streak key polls) rate)
    now before none = refl
    now before (some t) =
        ap (λ w. some (append_sample w t)) before ∙ append_sample-window (streak key polls) t

-- After any polls, the samples that are kept of a run are the last sixty of its rates, or all of them
-- if they are fewer, in the unbroken series of polls, up to the last one, in which it was live, a rate
-- that is negative or not finite as zero; of a run that was not live in the last poll nothing is kept.
pub samples_after-IsWindow :
    (key : Text) (polls : List (List RunDetail))
    → IsWindow (streak key polls) (get_entry key (samples_after polls))
samples_after-IsWindow key polls =
    subst (IsWindow (streak key polls)) (sym (samples_after-window key polls))
      (window-IsWindow (streak key polls))

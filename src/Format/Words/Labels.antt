-- ===== src/Format/Words/Labels.antt =====
-- `describeSchedule` of web/src/lib/format.ts: which weekly schedules have a label of their own.
use prox_back.Prelude.{
  ℕ, zero, suc, ◌+◌, ◌<◌, ◌≤◌, ◌≡◌, ◌≢◌, ◌↔◌, ◌⊎◌, refl, sym, ap, subst, Bool, true, false, List,
  [], ◌∷◌, ◌++◌, ◌==◌, length, arith, All, if◌then◌else◌,
}
use prox_back.Js.Text.{Text, codes}
use prox_back.Js.Value.{Value}
use prox_back.Js.Array.Sorting.{Ascending, sort_of_Ascending}
use prox_back.Js.Array.Membership.{Contains}
use prox_back.Js.Array.Ranges.{eq_of_same_elements, upto, upto_of_full}
use prox_back.Api.Schedule.{Schedule, parse_schedule}
use prox_back.Api.Schedule.Normal.{IsNormal, parse_schedule-IsNormal}
use prox_back.Format.Words.{are_days, describe, describe_schedule}
use prox_back.Format.Words.Spelled.{first_of, are_days_iff}

abbrev fifth_of : Text → ℕ
fifth_of (c ∷ d ∷ e ∷ f ∷ g ∷ s) = g
fifth_of _ = 0

clash : true ≡ false → ⊥
clash e = absurd cc

holds : {a : Text} → (a ≡ a) ↔ (true ≡ true)
holds = ((λ e. refl), (λ e. refl))

fails : {a b : Text} → a ≢ b → (a ≡ b) ↔ (false ≡ true)
fails n = ((λ e. absurd (n e)), (λ e. absurd (clash (sym e))))

-- One of four texts is chosen by three tests, of which at most one holds.
-- One of four texts is chosen by three tests, of which at most one holds.
chosen :
    (p q r : Bool) (a b c other : Text)
    → (q ≡ true → p ≡ false)
    → (r ≡ true → (p ≡ false) × (q ≡ false))
    → (a ≢ b) × ((a ≢ c) × (b ≢ c))
    → (a ≢ other) × ((b ≢ other) × (c ≢ other))
    → (((if p then a else if q then b else if r then c else other) ≡ a) ↔ (p ≡ true))
      × ((((if p then a else if q then b else if r then c else other) ≡ b) ↔ (q ≡ true))
          × (((if p then a else if q then b else if r then c else other) ≡ c) ↔ (r ≡ true)))
chosen true true r a b c other f g n m = absurd (clash (f refl))
chosen true false true a b c other f g n m = absurd (clash (g refl).0)
chosen true false false a b c other f g n m = (holds, (fails n.0, fails n.1.0))
chosen false true true a b c other f g n m = absurd (clash (g refl).1)
chosen false true false a b c other f g n m = (fails (λ e. n.0 (sym e)), (holds, fails n.1.1))
chosen false false true a b c other f g n m =
    (fails (λ e. n.1.0 (sym e)), (fails (λ e. n.1.1 (sym e)), holds))
chosen false false false a b c other f g n m =
    (fails (λ e. m.0 (sym e)), (fails (λ e. m.1.0 (sym e)), fails (λ e. m.1.1 (sym e))))

-- The weekdays of a list are those with a property.
abbrev pub AreExactly : (ℕ → Type 0) → List ℕ → Type 0
AreExactly P days = (d : ℕ) → Contains d days ↔ P d

within : (low n x : ℕ) → Contains x (upto low n) ↔ ((low ≤ x) × (x < low + n))
within low zero x = ((λ c. absurd c), λ h. omega (arith, h))
within low (suc n) x = ground (arith, within (suc low) n x)

-- A list in order is the known one exactly if it has the elements of that.
known_iff :
    (P : ℕ → Type 0) (known days : List ℕ)
    → Ascending known
    → Ascending days
    → AreExactly P known
    → (days ≡ known) ↔ AreExactly P days
known_iff P known days k a h = (
  (λ e. subst (AreExactly P) (sym e) h),
  (λ f.
      eq_of_same_elements days known a k
        (λ d. ((λ c. (h d).1 ((f d).0 c)), λ c. (f d).1 ((h d).0 c)))),
)

abbrev whole_week : List ℕ
whole_week = 0 ∷ 1 ∷ 2 ∷ 3 ∷ 4 ∷ 5 ∷ 6 ∷ []

abbrev working_days : List ℕ
working_days = 1 ∷ 2 ∷ 3 ∷ 4 ∷ 5 ∷ []

abbrev weekend : List ℕ
weekend = 0 ∷ 6 ∷ []

week-AreExactly : AreExactly (λ d. d ≤ 6) whole_week
week-AreExactly d = ground (arith, within 0 7 d)

working_days-AreExactly : AreExactly (λ d. (1 ≤ d) × (d ≤ 5)) working_days
working_days-AreExactly d = ground (arith, within 1 5 d)

weekend-AreExactly : AreExactly (λ d. (d ≡ 0) ⊎ (d ≡ 6)) weekend
weekend-AreExactly d = ground arith

working_days-Ascending : Ascending working_days
working_days-Ascending = omega arith

weekend-Ascending : Ascending weekend
weekend-Ascending = omega arith

whole_week-Ascending : Ascending whole_week
whole_week-Ascending = omega arith

none_below : (days : List ℕ) → All (λ y. 0 ≤ y) days
none_below [] = tt
none_below (d ∷ ds) = (omega arith, none_below ds)

strict : (days : List ℕ) → All (λ d. d ≤ 6) days → All (λ d. d < 7) days
strict [] h = tt
strict (d ∷ ds) h = (omega arith, strict ds h.1)

full_iff :
    (days : List ℕ)
    → Ascending days
    → All (λ d. d ≤ 6) days
    → ((length days == 7) ≡ true) ↔ (days ≡ whole_week)
full_iff days a h = (
  (λ e. upto_of_full 0 7 7 days (omega arith) a (none_below days) (strict days h) (ground arith)),
  (λ e. rw e refl),
)

and_then : {A B C : Type 0} → A ↔ B → B ↔ C → A ↔ C
and_then f g = ((λ a. g.0 (f.0 a)), (λ c. f.1 (g.1 c)))

-- What `describe` compares for days in order, and what it makes of them.
module _ (time : Text) (days : List ℕ) (a : Ascending days) (h : All (λ d. d ≤ 6) days) where
  every_day : ((length days == 7) ≡ true) ↔ (days ≡ whole_week)
  every_day = full_iff days a h

  mon_to_fri : (are_days 5 (codes "1,2,3,4,5") days ≡ true) ↔ (days ≡ working_days)
  mon_to_fri = are_days_iff days working_days (codes "1,2,3,4,5") h refl

  weekends : (are_days 2 (codes "0,6") days ≡ true) ↔ (days ≡ weekend)
  weekends = are_days_iff days weekend (codes "0,6") h refl

  label_cases :
      ((describe (Schedule.weekly time days) ≡ codes "Every day at " ++ time)
        ↔ ((length days == 7) ≡ true))
      × (((describe (Schedule.weekly time days) ≡ codes "Mon to Fri at " ++ time)
            ↔ (are_days 5 (codes "1,2,3,4,5") days ≡ true))
          × ((describe (Schedule.weekly time days) ≡ codes "Weekends at " ++ time)
              ↔ (are_days 2 (codes "0,6") days ≡ true)))
  unfolding describe
  label_cases = rw (sort_of_Ascending days a) (
      chosen (length days == 7) (are_days 5 (codes "1,2,3,4,5") days)
        (are_days 2 (codes "0,6") days) _ _ _ _ (λ q. rw (mon_to_fri.0 q) refl)
        (λ r. rw (weekends.0 r) (refl, refl))
        (
          (λ e. omega (arith, ap first_of e)),
          ((λ e. omega (arith, ap first_of e)), λ e. omega (arith, ap first_of e)),
        )
        (
          (λ e. omega (arith, ap first_of e)),
          ((λ e. omega (arith, ap first_of e)), λ e. omega (arith, ap fifth_of e)),
        ))

-- The label of a weekly schedule that is read from a value says that it runs every day exactly if its
-- weekdays are all seven, Mon to Fri exactly if they are the five from Monday to Friday, and weekends
-- exactly if they are Sunday and Saturday.
pub describe_schedule-exact :
    (value : Value) (time : Text) (days : List ℕ)
    → parse_schedule value ≡ Schedule.weekly time days
    → ((describe_schedule value ≡ codes "Every day at " ++ time) ↔ AreExactly (λ d. d ≤ 6) days)
      × (((describe_schedule value ≡ codes "Mon to Fri at " ++ time)
            ↔ AreExactly (λ d. (1 ≤ d) × (d ≤ 5)) days)
          × ((describe_schedule value ≡ codes "Weekends at " ++ time)
              ↔ AreExactly (λ d. (d ≡ 0) ⊎ (d ≡ 6)) days))
unfolding describe_schedule
describe_schedule-exact value time days e =
    let n : IsNormal (Schedule.weekly time days) =
      subst IsNormal e (parse_schedule-IsNormal value) in
    let a : Ascending days = n.1 in
    let labels = label_cases time days a n.2 in
    rw e (
      and_then labels.0 (
          and_then (every_day time days a n.2)
            (known_iff _ whole_week days whole_week-Ascending a week-AreExactly)),
      (
        and_then labels.1.0 (
            and_then (mon_to_fri time days a n.2)
              (known_iff _ working_days days working_days-Ascending a working_days-AreExactly)),
        and_then labels.1.1 (
            and_then (weekends time days a n.2)
              (known_iff _ weekend days weekend-Ascending a weekend-AreExactly)),
      ),
    )

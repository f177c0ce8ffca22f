-- ===== src/ScheduleEditor/Emitted.antt =====
-- What web/src/components/ScheduleEditor.tsx hands to the wizard after a session.
use prox_back.Prelude.{
  ℕ, ◌≤◌, ◌≡◌, refl, ◌≢◌, true, not, List, [], ◌∷◌, ◌++◌, All, All-append, is_empty, arith, inl,
  inr, Bool-cases,
}
use prox_back.Js.Text.{codes}
use prox_back.Js.Text.Trimming.{trim_idem}
use prox_back.Js.Array.{includes}
use prox_back.Js.Array.Sorting.{
  Ascending, All-sort, All-without, sort-Ascending, sort_of_Ascending, without-Ascending,
  snoc-Distinct,
}
use prox_back.Api.Wire.Laws.{IsTime}
use prox_back.Api.Wire.{is_hhmm}
use prox_back.Api.Schedule.{Schedule, ScheduleKind, parse_schedule, to_value}
use prox_back.Api.Schedule.Normal.{IsNormal, parse_schedule-to_value}
use prox_back.ScheduleEditor.{
  Draft, or_first, draft_from, project, to_schedule, is_schedule_complete, toggle_weekday, Event,
  pick, set_minute, set_time, toggle, preset, set_day, set_cron, unfold_advanced, patched, Editor,
  open_editor, handle,
}

-- The fields of a draft are in range, whatever cadence is picked.
pub record IsValid (d : Draft) : Type 0 where
  pub minutes : d.minute ≤ 59
  pub is_time : IsTime d.time
  pub in_order : Ascending d.weekdays
  pub are_weekdays : All (λ w. w ≤ 6) d.weekdays
  pub is_day : (1 ≤ d.day_of_month) × (d.day_of_month ≤ 31)

-- The values that the controls can hand over.
abbrev pub IsOffered : Event → Type 0
IsOffered (pick kind) = kind ≢ ScheduleKind.advanced
IsOffered (set_minute m) = m ≤ 59
IsOffered (set_time t) = IsTime t
IsOffered (toggle day) = day ≤ 6
IsOffered (preset days) = Ascending days × All (λ w. w ≤ 6) days
IsOffered (set_day n) = (1 ≤ n) × (n ≤ 31)
IsOffered (set_cron text) = Unit
IsOffered (unfold_advanced shown) = Unit

default-IsTime : IsTime (codes "02:00")
default-IsTime = unfold is_hhmm in refl

or_first-Ascending : (ds : List ℕ) → Ascending ds → Ascending (or_first ds)
or_first-Ascending [] h = (tt, tt)
or_first-Ascending (d ∷ ds) h = h

or_first-le : (ds : List ℕ) → All (λ w. w ≤ 6) ds → All (λ w. w ≤ 6) (or_first ds)
or_first-le [] h = (omega arith, tt)
or_first-le (d ∷ ds) h = h

draft_of :
    (d : Draft)
    → IsTime d.time
    → d.minute ≤ 59
    → Ascending d.weekdays
    → All (λ w. w ≤ 6) d.weekdays
    → (1 ≤ d.day_of_month) × (d.day_of_month ≤ 31)
    → IsValid d
draft_of d t m a w r = record {
  minutes = m;
  is_time = t;
  in_order = a;
  are_weekdays = w;
  is_day = r;
}

draft_from-IsValid : (s : Schedule) → IsNormal s → IsValid (draft_from s)
unfolding draft_from
draft_from-IsValid Schedule.manual h =
    draft_of _ default-IsTime (omega arith) (tt, tt) (omega arith, tt) (omega arith)
draft_from-IsValid (Schedule.hourly minute) h =
    draft_of _ default-IsTime h (tt, tt) (omega arith, tt) (omega arith)
draft_from-IsValid (Schedule.daily time) h =
    draft_of _ h (omega arith) (tt, tt) (omega arith, tt) (omega arith)
draft_from-IsValid (Schedule.weekly time days) h =
    draft_of _ h.0 (omega arith) (or_first-Ascending days h.1) (or_first-le days h.2) (omega arith)
draft_from-IsValid (Schedule.monthly time day) h =
    draft_of _ h.0 (omega arith) (tt, tt) (omega arith, tt) (h.1, h.2)
draft_from-IsValid (Schedule.advanced cron) h =
    draft_of _ default-IsTime (omega arith) (tt, tt) (omega arith, tt) (omega arith)

toggle_weekday-Ascending :
    (day : ℕ) (ds : List ℕ) → Ascending ds → Ascending (toggle_weekday day ds)
unfolding toggle_weekday
toggle_weekday-Ascending day ds h = elim (Bool-cases (includes day ds)) [
  | inl e ↦ rw e (without-Ascending day ds h)
  | inr e ↦ rw e (sort-Ascending (ds ++ (day ∷ [])) (snoc-Distinct day ds e h))
]

toggle_weekday-le :
    (day : ℕ) (ds : List ℕ)
    → day ≤ 6
    → All (λ w. w ≤ 6) ds
    → All (λ w. w ≤ 6) (toggle_weekday day ds)
unfolding toggle_weekday
toggle_weekday-le day ds small h = elim (Bool-cases (includes day ds)) [
  | inl e ↦ rw e (All-without (λ w. w ≤ 6) day ds h)
  | inr e ↦ rw e (
      All-sort (λ w. w ≤ 6) (ds ++ (day ∷ []))
        (All-append (λ w. w ≤ 6) ds (day ∷ []) h (small, tt)))
]

patched-IsValid :
    (d : Draft) (event : Event) → IsOffered event → IsValid d → IsValid (patched d event)
unfolding patched
patched-IsValid d (pick kind) o v =
    draft_of _ v.is_time v.minutes v.in_order v.are_weekdays v.is_day
patched-IsValid d (set_minute m) o v = draft_of _ v.is_time o v.in_order v.are_weekdays v.is_day
patched-IsValid d (set_time t) o v = draft_of _ o v.minutes v.in_order v.are_weekdays v.is_day
patched-IsValid d (toggle day) o v =
    draft_of _ v.is_time v.minutes (toggle_weekday-Ascending day d.weekdays v.in_order)
      (toggle_weekday-le day d.weekdays o v.are_weekdays) v.is_day
patched-IsValid d (preset days) o v = draft_of _ v.is_time v.minutes o.0 o.1 v.is_day
patched-IsValid d (set_day n) o v = draft_of _ v.is_time v.minutes v.in_order v.are_weekdays o
patched-IsValid d (set_cron text) o v =
    draft_of _ v.is_time v.minutes v.in_order v.are_weekdays v.is_day
patched-IsValid d (unfold_advanced shown) o v = v

not_nil : (ds : List ℕ) → not (is_empty ds) ≡ true → ds ≢ []
not_nil [] h = cc
not_nil (d ∷ ds) h = λ e. cc

project-IsNormal :
    (kind : ScheduleKind) (d : Draft)
    → IsValid d
    → is_schedule_complete (project kind d) ≡ true
    → IsNormal (project kind d)
unfolding project is_schedule_complete
project-IsNormal ScheduleKind.manual d v c = tt
project-IsNormal ScheduleKind.hourly d v c = v.minutes
project-IsNormal ScheduleKind.daily d v c = v.is_time
project-IsNormal ScheduleKind.weekly d v c = rw (sort_of_Ascending d.weekdays v.in_order) (
  v.is_time,
  v.in_order,
  v.are_weekdays,
  not_nil d.weekdays (rw (sort_of_Ascending d.weekdays v.in_order) at c),
)
project-IsNormal ScheduleKind.monthly d v c = (v.is_time, v.is_day.0, v.is_day.1)
project-IsNormal ScheduleKind.advanced d v c = trim_idem d.cron

-- The editor after a session.
abbrev pub run : Editor → List Event → Editor
run e [] = e
run e (event ∷ rest) = run (handle e event).0 rest

run-IsValid :
    (events : List Event) (e : Editor)
    → All IsOffered events
    → IsValid e.draft
    → IsValid (run e events).draft
unfolding handle
run-IsValid [] e o v = v
run-IsValid (event ∷ rest) e o v =
    run-IsValid rest (handle e event).0 o.1 (patched-IsValid e.draft event o.0 v)

-- After any session that began with a schedule in normal form and used what the controls offer, the
-- schedule of the draft, if it is complete enough to save, is in normal form and is what the server's
-- answer to it will be read as.
pub run-IsNormal :
    (s : Schedule) (events : List Event)
    → IsNormal s
    → All IsOffered events
    → is_schedule_complete (to_schedule (run (open_editor s) events).draft) ≡ true
    → IsNormal (to_schedule (run (open_editor s) events).draft)
      × (parse_schedule (to_value (to_schedule (run (open_editor s) events).draft))
          ≡ to_schedule (run (open_editor s) events).draft)
unfolding to_schedule open_editor
run-IsNormal s events h o c =
    let v = run-IsValid events (open_editor s) o (draft_from-IsValid s h) in
    let d = (run (open_editor s) events).draft in
    let n = project-IsNormal d.kind d v c in (n, parse_schedule-to_value _ n)

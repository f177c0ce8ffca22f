-- ===== src/ScheduleEditor.antt =====
-- web/src/components/ScheduleEditor.tsx: the draft that the editor keeps, and its handlers.
pub mod TimeField
pub mod Fidelity
pub mod Emitted
use prox_back.Prelude.{
  ℕ, Bool, true, false, not, List, [], ◌∷◌, ◌++◌, Option, none, some, if◌then◌else◌, is_empty,
}
use prox_back.Js.Text.{Text, codes, trim}
use prox_back.Js.Array.{includes, without, sort}
use prox_back.Api.Schedule.{Schedule, ScheduleKind}
use prox_back.Format.Cron.{is_valid_cron}

-- `interface Draft`; `fallback` is never `advanced`.
pub record Draft : Type 0 where
  pub kind : ScheduleKind
  pub minute : ℕ
  pub time : Text
  pub weekdays : List ℕ
  pub day_of_month : ℕ
  pub cron : Text
  pub fallback : ScheduleKind

abbrev pub default_draft : Draft
default_draft = record {
  kind = ScheduleKind.daily;
  minute = 0;
  time = codes "02:00";
  weekdays = 0 ∷ [];
  day_of_month = 1;
  cron = [];
  fallback = ScheduleKind.daily;
}

-- `weekdays.length > 0 ? weekdays : [0]`.
abbrev or_first : List ℕ → List ℕ
or_first [] = 0 ∷ []
or_first (d ∷ ds) = d ∷ ds

-- `draftFrom`.
unfoldable pub draft_from : Schedule → Draft
draft_from Schedule.manual = record default_draft {
  kind = ScheduleKind.manual;
  fallback = ScheduleKind.manual;
}
draft_from (Schedule.hourly minute) = record default_draft {
  kind = ScheduleKind.hourly;
  fallback = ScheduleKind.hourly;
  minute = minute;
}
draft_from (Schedule.daily time) = record default_draft {
  kind = ScheduleKind.daily;
  fallback = ScheduleKind.daily;
  time = time;
}
draft_from (Schedule.weekly time weekdays) = record default_draft {
  kind = ScheduleKind.weekly;
  fallback = ScheduleKind.weekly;
  time = time;
  weekdays = or_first weekdays;
}
draft_from (Schedule.monthly time day_of_month) = record default_draft {
  kind = ScheduleKind.monthly;
  fallback = ScheduleKind.monthly;
  time = time;
  day_of_month = day_of_month;
}
draft_from (Schedule.advanced cron) = record default_draft {
  kind = ScheduleKind.advanced;
  cron = cron;
}

project : ScheduleKind → Draft → Schedule
project ScheduleKind.manual d = Schedule.manual
project ScheduleKind.hourly d = Schedule.hourly d.minute
project ScheduleKind.daily d = Schedule.daily d.time
project ScheduleKind.weekly d = Schedule.weekly d.time (sort d.weekdays)
project ScheduleKind.monthly d = Schedule.monthly d.time d.day_of_month
project ScheduleKind.advanced d = Schedule.advanced (trim d.cron)

-- `toSchedule`, the `switch` on the draft's kind.
unfoldable pub to_schedule : Draft → Schedule
unfolding project
to_schedule d = project d.kind d

-- `isScheduleComplete`.
unfoldable pub is_schedule_complete : Schedule → Bool
is_schedule_complete (Schedule.weekly time weekdays) = not (is_empty weekdays)
is_schedule_complete (Schedule.advanced cron) = is_valid_cron cron
is_schedule_complete _ = true

-- `toggle` of `WeekdayPicker`: what it hands to `onChange`.
unfoldable pub toggle_weekday : ℕ → List ℕ → List ℕ
toggle_weekday day selected =
    if includes day selected then without day selected else sort (selected ++ (day ∷ []))

-- What an operator can do to the editor, with the value that the control hands over.
pub data Event : Type 0 where
  pick : ScheduleKind → Event
  set_minute : ℕ → Event
  set_time : Text → Event
  toggle : ℕ → Event
  preset : List ℕ → Event
  set_day : ℕ → Event
  set_cron : Text → Event
  unfold_advanced : Bool → Event

-- The state of `ScheduleEditor`.
pub record Editor : Type 0 where
  pub draft : Draft
  pub advanced_open : Bool

abbrev is_advanced : Schedule → Bool
is_advanced (Schedule.advanced cron) = true
is_advanced _ = false

-- The initial state for a schedule.
unfoldable pub open_editor : Schedule → Editor
open_editor value = record { draft = draft_from value; advanced_open = is_advanced value }

-- `{ ...draft, ...patch }` for the patch of each handler.
unfoldable pub patched : Draft → Event → Draft
patched d (pick kind) = record d { kind = kind; fallback = kind }
patched d (set_minute m) = record d { minute = m }
patched d (set_time t) = record d { time = t }
patched d (toggle day) = record d { weekdays = toggle_weekday day d.weekdays }
patched d (preset days) = record d { weekdays = days }
patched d (set_day n) = record d { day_of_month = n }
patched d (set_cron text) = record d {
  kind = if is_empty (trim text) then d.fallback else ScheduleKind.advanced;
  cron = text;
}
patched d (unfold_advanced shown) = d

-- The schedule that a handler passes to `onChange`, if it does.
emitted : Draft → Event → Option Schedule
emitted next (unfold_advanced shown) = none
emitted next _ = some (to_schedule next)

shown_after : Bool → Event → Bool
shown_after shown (pick kind) = false
shown_after shown (unfold_advanced now_shown) = now_shown
shown_after shown _ = shown

-- A handler: `setDraft(next)`, then `onChange(toSchedule(next))`.
unfoldable pub handle : Editor → Event → Editor × Option Schedule
unfolding patched emitted shown_after
handle e event =
    let next = patched e.draft event in
    (record { draft = next; advanced_open = shown_after e.advanced_open event }, emitted next event)

-- ===== src/ScheduleEditor/Fidelity.antt =====
-- The draft of web/src/components/ScheduleEditor.tsx and the schedule that it stands for.
use prox_back.Prelude.{ℕ, ◌≡◌, refl, ◌≢◌, ap, true, false, List, [], ◌∷◌, is_empty, ◌∙◌, sym}
use prox_back.Js.Text.{Text, trim}
use prox_back.Js.Array.{sort}
use prox_back.Js.Array.Sorting.{sort_of_Ascending}
use prox_back.Api.Schedule.{Schedule, ScheduleKind}
use prox_back.Api.Schedule.Normal.{IsNormal}
use prox_back.ScheduleEditor.{
  Draft, or_first, draft_from, project, to_schedule, pick, set_cron, patched,
}

or_first_of_ne : (ds : List ℕ) → ds ≢ [] → or_first ds ≡ ds
or_first_of_ne [] h = absurd (h refl)
or_first_of_ne (d ∷ ds) h = refl

-- Opening the editor on a schedule in normal form and applying nothing gives that schedule.
to_schedule-draft_from : (s : Schedule) → IsNormal s → to_schedule (draft_from s) ≡ s
unfolding to_schedule draft_from
to_schedule-draft_from Schedule.manual h = refl
to_schedule-draft_from (Schedule.hourly minute) h = refl
to_schedule-draft_from (Schedule.daily time) h = refl
to_schedule-draft_from (Schedule.weekly time days) h =
    ap (Schedule.weekly time) (ap sort (or_first_of_ne days h.3) ∙ sort_of_Ascending days h.1)
to_schedule-draft_from (Schedule.monthly time day) h = refl
to_schedule-draft_from (Schedule.advanced cron) h = ap Schedule.advanced h

-- The draft after a cadence was picked for each of a list.
abbrev pub pick_all : List ScheduleKind → Draft → Draft
pick_all [] d = d
pick_all (k ∷ ks) d = pick_all ks (patched d (pick k))

-- However the operator switches between cadences, coming back to one gives the schedule that picking
-- it at once would have given.
pub pick-pick_all :
    (d : Draft) (ks : List ScheduleKind) (k : ScheduleKind)
    → to_schedule (patched (pick_all ks d) (pick k)) ≡ to_schedule (patched d (pick k))
unfolding patched
pick-pick_all d [] k = refl
pick-pick_all d (j ∷ ks) k = pick-pick_all (patched d (pick j)) ks k

-- A cadence other than the cron expression does not depend on the text of one.
project_cron :
    (k j : ScheduleKind) (d : Draft) (text : Text)
    → k ≢ ScheduleKind.advanced
    → project k (record d { kind = j; cron = text }) ≡ project k d
unfolding project
project_cron ScheduleKind.advanced j d text ne = absurd (ne refl)
project_cron ScheduleKind.manual j d text ne = refl
project_cron ScheduleKind.hourly j d text ne = refl
project_cron ScheduleKind.daily j d text ne = refl
project_cron ScheduleKind.weekly j d text ne = refl
project_cron ScheduleKind.monthly j d text ne = refl

trim_nil : is_empty (trim []) ≡ true
unfolding trim
trim_nil = refl

-- In a draft with a picked cadence, a cron text that is typed and then emptied leaves the schedule
-- as it was, and while it is there and not blank the schedule is the trimmed text.
pub cron_cleared :
    (d : Draft) (text : Text)
    → d.kind ≡ d.fallback
    → d.kind ≢ ScheduleKind.advanced
    → is_empty (trim text) ≡ false
    → (to_schedule (patched d (set_cron text)) ≡ Schedule.advanced (trim text))
      × (to_schedule (patched (patched d (set_cron text)) (set_cron [])) ≡ to_schedule d)
unfolding patched to_schedule
cron_cleared d text same plain typed = (
  rw typed,
  rw trim_nil (
      project_cron d.fallback d.fallback d [] (λ e. plain (same ∙ e))
      ∙ ap (λ k. project k d) (sym same)),
)

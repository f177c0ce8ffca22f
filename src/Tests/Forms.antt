-- ===== src/Tests/Forms.antt =====
-- The job wizard and the toasts at concrete inputs.
use prox_back.Prelude.{◌≡◌, refl, Bool, true, false, List, [], ◌∷◌, none, some, ◌&&◌, both_of_and}
use prox_back.Js.Text.{codes, trim}
use prox_back.Api.Inventory.{CachedVm}
use prox_back.Api.Retention.{retention_rule_count}
use prox_back.ScheduleEditor.{is_schedule_complete}
use prox_back.JobWizard.Form.{initial_state, step_valid}
use prox_back.JobWizard.Steps.{
  Wizard, change, go_on, submit, press_vm, choose_target, set_name, is_offered, edit, open_wizard,
  payload_of, Reached, opened, handled,
}
use prox_back.JobWizard.Selection.{ArePaths}
use prox_back.JobWizard.Complete.{IsComplete, payload-IsComplete}
use prox_back.Toast.{Provider, initial, pushed, passed, error, run}
use prox_back.Toast.Shown.{IsTidy, run-IsTidy}
use prox_back.Toast
use prox_back.JobWizard.Steps

abbrev database : CachedVm
database = record { host_id = codes "1"; vmid = 100; name = codes "db-01"; node = codes "pve1" }

abbrev mail : CachedVm
mail = record { host_id = codes "2"; vmid = 100; name = codes "mail"; node = codes "pve1" }

one_path : ArePaths (codes "/etc" ∷ [])
one_path = (trimmed, refl, refl, tt)
  where
    trimmed : trim (codes "/etc") ≡ codes "/etc"
    trimmed = unfold trim in refl

-- A new job for one VM, with a target.
abbrev steps : List Steps.Event
steps = go_on ∷ change (choose_target (codes "7")) ∷ go_on ∷ go_on ∷ go_on ∷ go_on ∷ []

abbrev after : List Steps.Event → Wizard → Wizard
after [] w = w
after (event ∷ rest) w = after rest (Steps.handle w event)

abbrev all_offered : List Steps.Event → Wizard → Bool
all_offered [] w = true
all_offered (event ∷ rest) w = is_offered w event && all_offered rest (Steps.handle w event)

Reached-after :
    (events : List Steps.Event) (w : Wizard)
    → Reached w
    → all_offered events w ≡ true
    → Reached (after events w)
Reached-after [] w r h = r
Reached-after (event ∷ rest) w r h =
    let (here, later) = both_of_and _ _ h in
    Reached-after rest (Steps.handle w event) (handled w event r here) later

abbrev fresh : Wizard
fresh = open_wizard false none (some database) []

steps_offered : (all_offered steps fresh ≡ true) × (is_offered (after steps fresh) submit ≡ true)
unfolding is_offered edit Steps.handle open_wizard initial_state step_valid is_schedule_complete
    retention_rule_count trim
steps_offered = (refl, refl)

payload_example : IsComplete (payload_of (after steps fresh).state)
payload_example =
    payload-IsComplete (after steps fresh)
      (Reached-after steps fresh (opened false none (some database) []) steps_offered.0)
      steps_offered.1

abbrev messages : List Toast.Event
messages =
    pushed error (codes "Could not create job") [] false
    ∷ passed 100
    ∷ pushed error (codes "Could not update job") [] true
    ∷ []

messages_example : IsTidy (run initial messages)
messages_example = run-IsTidy messages

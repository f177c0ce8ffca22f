-- ===== src/JobWizard/Steps.antt =====
-- The controls of web/src/components/JobWizard.tsx: the patch that each makes, the Back, Continue and
-- Create buttons, and the body that is posted.
use prox_back.Prelude.{
  ℕ, ◌+◌, ◌-◌, ◌≡◌, Bool, true, false, not, List, [], Option, none, some, ◌&&◌, ◌||◌, ◌==◌, min,
  if◌then◌else◌, is_empty, keep, map,
}
use prox_back.Js.Text.{Text, same_text, trim}
use prox_back.Api.Schedule.{Schedule}
use prox_back.Api.Policy.{JobPolicy}
use prox_back.Api.Policy.Highlights.{JobKind, vm, agent}
use prox_back.Api.Retention.{RetentionPolicy}
use prox_back.Api.Inventory.{CachedVm}
use prox_back.JobWizard.Form.{
  VmJobSource, JobSources, vms, one_agent, SourceMode, Job, WizardState, initial_state, by_tag,
  step_valid, toggle_vm, add_path,
}

-- What a control of a step does.
pub data Edit : Type 0 where
  set_name : Text → Edit
  set_kind : JobKind → Edit
  set_source_mode : SourceMode → Edit
  press_tag : Text → Edit
  press_vm : CachedVm → Edit
  choose_agent : Text → Edit
  type_path : Text → Edit
  press_add : Edit
  remove_path : Text → Edit
  choose_target : Text → Edit
  set_schedule : Schedule → Edit
  set_retention : RetentionPolicy → Edit
  set_policy : JobPolicy → Edit
  set_enabled : Bool → Edit

-- The index of the step that shows the control.
abbrev pub step_of : Edit → ℕ
step_of (choose_target id) = 1
step_of (set_schedule schedule) = 2
step_of (set_retention retention) = 3
step_of (set_policy policy) = 4
step_of (set_enabled enabled) = 5
step_of _ = 0

-- The handler's `patch`, given the text of the path field.
unfoldable pub edit : Text → WizardState → Edit → WizardState
edit draft s (set_name text) = record s { name = text }
edit draft s (set_kind k) = record s { kind = k }
edit draft s (set_source_mode mode) = record s { source_mode = mode }
edit draft s (press_tag text) = record s {
  tag_filter = if same_text s.tag_filter text then [] else text;
}
edit draft s (press_vm v) = record s { selected_vms = toggle_vm v s.selected_vms }
edit draft s (choose_agent id) = record s { agent_id = id }
edit draft s (type_path text) = s
edit draft s press_add = record s { paths = add_path draft s.paths }
edit draft s (remove_path path) = record s {
  paths = keep (λ item. not (same_text item path)) s.paths;
}
edit draft s (choose_target id) = record s { target_id = id }
edit draft s (set_schedule new) = record s { schedule = new }
edit draft s (set_retention new) = record s { retention = new }
edit draft s (set_policy new) = record s { policy = new }
edit draft s (set_enabled on) = record s { enabled = on }

-- The text of the path field after it. A blank path is not added and stays.
draft_after : Text → Edit → Text
draft_after draft (type_path text) = text
draft_after draft press_add = if is_empty (trim draft) then draft else []
draft_after draft _ = draft

-- The state of the wizard; `job` is the job that it edits.
pub record Wizard : Type 0 where
  pub job : Option Job
  pub step : ℕ
  pub state : WizardState
  pub path_draft : Text
  pub submitting : Bool
  pub error : Option Text

-- `JobCreate`.
pub record JobCreate : Type 0 where
  pub name : Text
  pub kind : JobKind
  pub target_id : Text
  pub schedule : Schedule
  pub retention : RetentionPolicy
  pub policy : JobPolicy
  pub sources : JobSources
  pub enabled : Bool
  pub tag_filter : Option Text

-- `{ hostId: vm.hostId, vmid: vm.vmid, name: vm.name }`.
abbrev pub job_source : CachedVm → VmJobSource
job_source v = record { host_id = v.host_id; vmid = v.vmid; name = v.name }

sources_of : JobKind → WizardState → JobSources
sources_of agent s = one_agent (record { agent_id = s.agent_id; paths = s.paths })
sources_of vm s = if by_tag vm s.source_mode then vms [] else vms (map job_source s.selected_vms)

tag_filter_of : JobKind → WizardState → Option Text
tag_filter_of agent s = none
tag_filter_of vm s = some (if by_tag vm s.source_mode then s.tag_filter else [])

-- `payload` of `onSubmit`.
unfoldable pub payload_of : WizardState → JobCreate
unfolding sources_of tag_filter_of
payload_of s = record {
  name = trim s.name;
  kind = s.kind;
  target_id = s.target_id;
  schedule = s.schedule;
  retention = s.retention;
  policy = s.policy;
  sources = sources_of s.kind s;
  enabled = s.enabled;
  tag_filter = tag_filter_of s.kind s;
}

-- What the operator does, and the answer to a submission: an error message.
pub data Event : Type 0 where
  change : Edit → Event
  back go_on submit : Event
  refused : Text → Event

is_kind : Edit → Bool
is_kind (set_kind k) = true
is_kind _ = false

-- Whether the operator can do it, or the answer can come. A control counts as shown while its step is,
-- also where the wizard shows it for one kind or mode only. The kind of an existing job is fixed. A
-- job that is saved closes the wizard.
unfoldable pub is_offered : Wizard → Event → Bool
unfolding is_kind
is_offered w (change e) = step_of e == w.step && (not (is_kind e) || is_new w.job)
  where
    is_new : Option Job → Bool
    is_new none = true
    is_new (some job) = false
is_offered w back = not (w.step == 0) && not w.submitting
is_offered w go_on = not (w.step == 5) && step_valid w.step w.state
is_offered w submit = w.step == 5 && not w.submitting
is_offered w (refused message) = w.submitting

-- The wizard after it.
unfoldable pub handle : Wizard → Event → Wizard
unfolding draft_after
handle w (change e) = record w {
  state = edit w.path_draft w.state e;
  path_draft = draft_after w.path_draft e;
}
handle w back = record w { step = w.step - 1 }
handle w go_on = record w { step = min 5 (w.step + 1) }
handle w submit = record w { submitting = true; error = none }
handle w (refused message) = record w { submitting = false; error = some message }

-- The effect that resets the wizard whenever it is opened; `submitting` stays as it is.
unfoldable pub open_wizard : Bool → Option Job → Option CachedVm → List CachedVm → Wizard
open_wizard submitting job initial inventory = record {
  job = job;
  step = 0;
  state = initial_state job initial inventory;
  path_draft = [];
  submitting = submitting;
  error = none;
}

-- The wizards that an operator can bring about after opening one.
pub data Reached : Wizard → Type 0 where
  opened :
      (submitting : Bool) (job : Option Job) (initial : Option CachedVm) (inventory : List CachedVm)
      → Reached (open_wizard submitting job initial inventory)
  handled : (w : Wizard) (e : Event) → Reached w → is_offered w e ≡ true → Reached (handle w e)

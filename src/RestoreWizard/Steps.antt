-- ===== src/RestoreWizard/Steps.antt =====
-- The state of web/src/components/RestoreWizard.tsx, its handlers and effects, and the request that
-- is posted. The answers of the server are events, which can come at any time after their request.
use prox_back.Prelude.{
  ℕ, zero, suc, ◌+◌, ◌-◌, ◌≡◌, Bool, true, false, not, List, [], ◌∷◌, Option, none, some, ◌&&◌,
  ◌||◌, ◌==◌, ltb, min, if◌then◌else◌, is_empty, find?,
}
use prox_back.Js.Text.{Text, codes, same_text, trim, print_nat}
use prox_back.Api.Inventory.{CachedVm, Host, Agent, source_vmid}
use prox_back.RestoreWizard.Destination.{
  RestoreMode, alongside, overwrite, Props, Form, is_vm, is_vma, source, is_overwrite,
  is_overwrite_mode, confirm_satisfied, vmid_of, destination_valid,
}

-- The state; `asked` counts the requests for a free VMID that are not answered.
pub record Wizard : Type 0 where
  pub step : ℕ
  pub form : Form
  pub asked : ℕ
  pub suggesting : Bool
  pub suggest_error : Option Text
  pub submitting : Bool
  pub error : Option Text

-- `a ?? b ?? ''` on texts.
first_text : Option Text → Option Text → Text
first_text (some a) b = a
first_text none (some b) = b
first_text none none = []

node_of : Option CachedVm → Option Text
node_of none = none
node_of (some v) = some v.node

first_host : Option CachedVm → List Host → Text
first_host (some v) hosts = v.host_id
first_host none [] = []
first_host none (h ∷ hs) = h.id

-- The host of the restore point, or else of its source, or else the first one.
initial_host : Props → Text
unfolding first_host
initial_host props = elim props.backup.host_id [
  | some id ↦ id
  | none ↦ first_host (source props) props.hosts
]

-- The agent that the restore point came from, or else the first one.
initial_agent : Props → Text
initial_agent props =
    pick (find? (λ a. same_text a.id props.backup.source_id) props.agents) props.agents
  where
    pick : Option Agent → List Agent → Text
    pick (some a) agents = a.id
    pick none [] = []
    pick none (a ∷ agents) = a.id

-- The node that the restore point came from.
home_node : Props → Text
unfolding first_text node_of
home_node props = first_text props.backup.node (node_of (source props))

-- The VMID that an overwrite is aimed at.
unfoldable pub home_vmid : Props → Text
home_vmid props = pick (source props) (source_vmid props.backup.source_id)
  where
    pick : Option CachedVm → Option ℕ → Text
    pick (some v) vmid = print_nat v.vmid
    pick none (some vmid) = print_nat vmid
    pick none none = []

-- The form after the effect that a new restore point runs. What it leaves alone is left from before.
unfoldable pub reset_form : Props → Form → Form
unfolding initial_host home_node initial_agent
reset_form props old =
    let clean = record old { mode = alongside; confirm_name = []; storage = [] } in
    if is_vm props
    then record clean { host_id = initial_host props; node = home_node props; vmid = [] }
    else record clean { agent_id = initial_agent props; dest_path = [] }

-- `suggestVmid`, up to its request.
unfoldable pub suggest : Wizard → Wizard
suggest w =
    if is_empty w.form.host_id
    then w
    else record w { asked = w.asked + 1; suggesting = true; suggest_error = none }

-- The effect on the mode, the source and the host.
unfoldable pub aim : Props → Wizard → Wizard
unfolding suggest home_vmid home_node
aim props w =
    if is_vm props
    then (if is_overwrite_mode w.form.mode
        then record w { form = record w.form { vmid = home_vmid props; node = home_node props } }
        else suggest (record w { form = record w.form { confirm_name = [] } }))
    else w

-- The same effect as it runs with the mode and the host from before, when a restore point is opened.
unfoldable pub stale_aim : Props → Form → Wizard → Wizard
unfolding home_vmid home_node
stale_aim props old w =
    if not (is_vm props)
    then w
    else if is_overwrite_mode old.mode
    then record w { form = record w.form { vmid = home_vmid props; node = home_node props } }
    else if is_empty old.host_id
    then w
    else record w { asked = w.asked + 1; suggesting = true }

-- The wizard after a restore point was opened: both effects, and the second once more if what it
-- depends on has changed.
unfoldable pub open_wizard : Props → Wizard → Wizard
unfolding aim stale_aim
open_wizard props old =
    let w = stale_aim props old.form (record {
      step = 0;
      form = reset_form props old.form;
      asked = old.asked;
      suggesting = old.suggesting;
      suggest_error = none;
      submitting = false;
      error = none;
    }) in
    if not (is_overwrite_mode old.form.mode) && same_text old.form.host_id w.form.host_id
    then w
    else aim props w

pub record VmTarget : Type 0 where
  pub host_id : Text
  pub node : Text
  pub vmid : ℕ
  pub storage : Option Text

pub record AgentTarget : Type 0 where
  pub agent_id : Text
  pub dest_path : Text

pub data Target : Type 0 where
  to_vm : VmTarget → Target
  to_agent : AgentTarget → Target

-- `RestoreRequest`.
pub record RestoreRequest : Type 0 where
  pub backup_id : Text
  pub mode : RestoreMode
  pub target : Target
  pub confirm_name : Option Text

unfoldable pub vm_request : Props → Form → ℕ → RestoreRequest
vm_request props form vmid = record {
  backup_id = props.backup.id;
  mode = form.mode;
  target = to_vm (record {
    host_id = form.host_id;
    node = trim form.node;
    vmid = vmid;
    storage =
        if is_vma props && not (is_empty (trim form.storage))
        then some (trim form.storage)
        else none;
  });
  confirm_name = if is_overwrite_mode form.mode then some (trim form.confirm_name) else none;
}

unfoldable pub agent_request : Props → Form → RestoreRequest
agent_request props form = record {
  backup_id = props.backup.id;
  mode = alongside;
  target = to_agent (record { agent_id = form.agent_id; dest_path = trim form.dest_path });
  confirm_name = none;
}

-- What `onSubmit` comes to: a message, or a request.
pub data Submission : Type 0 where
  shows : Text → Submission
  posts : RestoreRequest → Submission

invalid_message : Bool → Text
invalid_message true = codes "Choose a host, a node, and a numeric VMID for the restored machine."
invalid_message false = codes "Choose an agent and a destination path."

-- The guards and the payload of `onSubmit`. The second test of the VMID is there for its number.
unfoldable pub submission : Props → Form → Submission
unfolding vm_request agent_request invalid_message
submission props form =
    if not (destination_valid props form)
    then shows (invalid_message (is_vm props))
    else if is_overwrite props form && not (confirm_satisfied props form)
    then shows (codes "Type the destination machine’s current name to confirm the overwrite.")
    else if is_vm props
    then (elim (vmid_of form.vmid) [
      | none ↦ shows (invalid_message true)
      | some vmid ↦ posts (vm_request props form vmid)
    ])
    else posts (agent_request props form)

-- What the operator does, and what the server answers. A restore that is started closes the wizard.
pub data Event : Type 0 where
  choose_mode : RestoreMode → Event
  choose_host : Text → Event
  type_node type_vmid type_storage type_confirm : Text → Event
  choose_agent : Text → Event
  type_path : Text → Event
  press_suggest : Event
  suggested : ℕ → Event
  no_suggestion : Text → Event
  back go_on submit : Event
  refused : Text → Event

-- The name of a step, of which an agent restore has no first.
pub data StepName : Type 0 where
  mode_step destination_step review_step : StepName

unfoldable pub step_name : Props → ℕ → StepName
step_name props step = of_index (if is_vm props then step else suc step)
  where
    of_index : ℕ → StepName
    of_index zero = mode_step
    of_index (suc zero) = destination_step
    of_index (suc (suc n)) = review_step

abbrev pub is_mode : StepName → Bool
is_mode mode_step = true
is_mode _ = false

abbrev pub is_destination : StepName → Bool
is_destination destination_step = true
is_destination _ = false

abbrev pub is_review : StepName → Bool
is_review review_step = true
is_review _ = false

-- `stepValid` of the step that is shown.
unfoldable pub step_valid : Props → Wizard → Bool
unfolding step_name
step_valid props w =
    is_mode (step_name props w.step)
    || (destination_valid props w.form && confirm_satisfied props w.form)

-- Whether the wizard shows the control and it is enabled, or the answer can come.
unfoldable pub is_offered : Props → Wizard → Event → Bool
unfolding step_name
is_offered props w event = offers event
  where
    here : Bool
    here = is_destination (step_name props w.step)

    last : Bool
    last = is_review (step_name props w.step)

    offers : Event → Bool
    offers (choose_mode m) = is_mode (step_name props w.step)
    offers (choose_host id) = here && is_vm props
    offers (type_node text) = here && is_vm props
    offers (type_vmid text) = here && is_vm props
    offers (type_storage text) = here && is_vma props
    offers (type_confirm text) = here && is_overwrite props w.form
    offers (choose_agent id) = here && not (is_vm props)
    offers (type_path text) = here && not (is_vm props)
    offers press_suggest = here && (is_vm props && not (is_overwrite props w.form || w.suggesting))
    offers (suggested vmid) = ltb 0 w.asked
    offers (no_suggestion message) = ltb 0 w.asked
    offers back = not (w.step == 0) && not w.submitting
    offers go_on = not last && step_valid props w
    offers submit = last && (step_valid props w && not w.submitting)
    offers (refused message) = w.submitting

unfoldable pub same_mode : RestoreMode → RestoreMode → Bool
same_mode alongside alongside = true
same_mode overwrite overwrite = true
same_mode _ _ = false

-- The state after `onSubmit`, up to its request.
unfoldable pub submitted : Wizard → Submission → Wizard
submitted w (posts request) = record w { submitting = true; error = none }
submitted w (shows message) = record w { error = some message }

-- `steps.length - 1`.
last_index : Props → ℕ
last_index props = if is_vm props then 2 else 1

unfoldable pub handle : Props → Wizard → Event → Wizard
unfolding suggest same_mode submitted last_index
handle props w (choose_mode m) =
    if same_mode w.form.mode m
    then w
    else aim props (record w { form = record w.form { mode = m } })
handle props w (choose_host id) =
    if same_text w.form.host_id id
    then w
    else aim props (record w { form = record w.form { host_id = id } })
handle props w (type_node text) = record w { form = record w.form { node = text } }
handle props w (type_vmid text) = record w { form = record w.form { vmid = text } }
handle props w (type_storage text) = record w { form = record w.form { storage = text } }
handle props w (type_confirm text) = record w { form = record w.form { confirm_name = text } }
handle props w (choose_agent id) = record w { form = record w.form { agent_id = id } }
handle props w (type_path text) = record w { form = record w.form { dest_path = text } }
handle props w press_suggest = suggest w
handle props w (suggested vmid) = record w {
  form = record w.form { vmid = print_nat vmid };
  asked = w.asked - 1;
  suggesting = false;
}
handle props w (no_suggestion message) = record w {
  asked = w.asked - 1;
  suggesting = false;
  suggest_error = some message;
}
handle props w back = record w { step = w.step - 1 }
handle props w go_on = record w { step = min (last_index props) (w.step + 1) }
handle props w submit = submitted w (submission props w.form)
handle props w (refused message) = record w { submitting = false; error = some message }

-- The wizards that can come about after a restore point was opened, whatever was shown before.
pub data Reached (props : Props) : Wizard → Type 0 where
  opened : (old : Wizard) → Reached props (open_wizard props old)
  handled :
      (w : Wizard) (event : Event)
      → Reached props w
      → is_offered props w event ≡ true
      → Reached props (handle props w event)

-- ===== src/JobWizard/Form.antt =====
-- The state that web/src/components/JobWizard.tsx collects: how it begins, `stepValid` and the
-- changes to lists. An ID is the text that `String(id)` gives.
use prox_back.Prelude.{
  ℕ, zero, suc, Bool, true, false, not, List, [], ◌∷◌, ◌++◌, Option, none, some, ◌&&◌, ◌||◌, leb,
  if◌then◌else◌, is_empty, any, keep,
}
use prox_back.Js.Text.{Text, codes, same_text, trim, print_nat}
use prox_back.Js.Value.{Value}
use prox_back.Api.Schedule.{Schedule, parse_schedule}
use prox_back.Api.Policy.{JobPolicy, default_policy, parse_policy}
use prox_back.Api.Policy.Highlights.{JobKind, vm, agent}
use prox_back.Api.Retention.{
  RetentionPolicy, default_retention, parse_retention, retention_rule_count,
}
use prox_back.Api.Inventory.{CachedVm}
use prox_back.ScheduleEditor.{is_schedule_complete}

-- `VMJobSource`.
pub record VmJobSource : Type 0 where
  pub host_id : Text
  pub vmid : ℕ
  pub name : Text

pub record AgentSource : Type 0 where
  pub agent_id : Text
  pub paths : List Text

-- `JobSources`: VM sources, an agent source or a list of them.
pub data JobSources : Type 0 where
  vms : List VmJobSource → JobSources
  one_agent : AgentSource → JobSources
  agents : List AgentSource → JobSources

-- `VMSourceMode`.
pub data SourceMode : Type 0 where
  manual tag : SourceMode

-- What the wizard reads of the `Job` that it edits.
pub record Job : Type 0 where
  pub id : Text
  pub name : Text
  pub kind : JobKind
  pub target_id : Text
  pub schedule : Value
  pub retention : Value
  pub policy : Value
  pub enabled : Bool
  pub sources : JobSources
  pub tag_filter : Option Text

pub record WizardState : Type 0 where
  pub name : Text
  pub kind : JobKind
  pub source_mode : SourceMode
  pub selected_vms : List CachedVm
  pub tag_filter : Text
  pub agent_id : Text
  pub paths : List Text
  pub target_id : Text
  pub schedule : Schedule
  pub retention : RetentionPolicy
  pub policy : JobPolicy
  pub enabled : Bool

unfoldable pub vm_key : Text → ℕ → Text
vm_key host_id vmid = host_id ++ (codes ":" ++ print_nat vmid)

abbrev pub key_of : CachedVm → Text
key_of v = vm_key v.host_id v.vmid

-- `vmKey(item.hostId, item.vmid) === key`.
unfoldable pub has_key : CachedVm → CachedVm → Bool
has_key v item = same_text (key_of item) (key_of v)

-- `wanted.has(vmKey(vm.hostId, vm.vmid))`.
is_wanted : List VmJobSource → CachedVm → Bool
is_wanted sources v =
    any (λ source. same_text (vm_key source.host_id source.vmid) (key_of v)) sources

-- `agentSourceOf`.
unfoldable pub agent_source_of : JobSources → Option AgentSource
agent_source_of (vms sources) = none
agent_source_of (one_agent source) = some source
agent_source_of (agents []) = none
agent_source_of (agents (source ∷ rest)) = some source

-- `vmSourcesOf`.
unfoldable pub vm_sources_of : JobSources → List VmJobSource
vm_sources_of (vms sources) = sources
vm_sources_of _ = []

text_or_empty : Option Text → Text
text_or_empty none = []
text_or_empty (some text) = text

agent_id_of : Option AgentSource → Text
agent_id_of none = []
agent_id_of (some source) = source.agent_id

paths_of : Option AgentSource → List Text
paths_of none = []
paths_of (some source) = source.paths

-- `initialState` for a job that is edited.
edit_state : Job → List CachedVm → WizardState
unfolding text_or_empty agent_id_of paths_of agent_source_of vm_sources_of is_wanted
edit_state job inventory =
    let filter = text_or_empty job.tag_filter in
    record {
      name = job.name;
      kind = job.kind;
      source_mode = if is_empty filter then SourceMode.manual else SourceMode.tag;
      selected_vms = keep (is_wanted (vm_sources_of job.sources)) inventory;
      tag_filter = filter;
      agent_id = agent_id_of (agent_source_of job.sources);
      paths = paths_of (agent_source_of job.sources);
      target_id = job.target_id;
      schedule = parse_schedule job.schedule;
      retention = parse_retention job.retention;
      policy = parse_policy job.policy;
      enabled = job.enabled;
    }

named_after : Option CachedVm → Text
named_after none = []
named_after (some v) = codes "Backup — " ++ v.name

just_that : Option CachedVm → List CachedVm
just_that none = []
just_that (some v) = v ∷ []

-- `initialState` for a new job.
new_state : Option CachedVm → WizardState
unfolding named_after just_that
new_state initial = record {
  name = named_after initial;
  kind = vm;
  source_mode = SourceMode.manual;
  selected_vms = just_that initial;
  tag_filter = [];
  agent_id = [];
  paths = [];
  target_id = [];
  schedule = Schedule.daily (codes "02:00");
  retention = default_retention;
  policy = default_policy;
  enabled = true;
}

-- `initialState`.
unfoldable pub initial_state : Option Job → Option CachedVm → List CachedVm → WizardState
unfolding edit_state new_state
initial_state (some job) initial inventory = edit_state job inventory
initial_state none initial inventory = new_state initial

-- `byTag`.
abbrev pub by_tag : JobKind → SourceMode → Bool
by_tag vm SourceMode.tag = true
by_tag _ _ = false

-- The rest of `case 0` of `stepValid`.
abbrev pub has_sources : JobKind → WizardState → Bool
has_sources agent s = not (is_empty s.agent_id) && not (is_empty s.paths)
has_sources vm s =
    if by_tag vm s.source_mode then not (is_empty s.tag_filter) else not (is_empty s.selected_vms)

-- `stepValid`.
unfoldable pub step_valid : ℕ → WizardState → Bool
step_valid zero s = not (is_empty (trim s.name)) && has_sources s.kind s
step_valid (suc zero) s = not (is_empty s.target_id)
step_valid (suc (suc zero)) s = is_schedule_complete s.schedule
step_valid (suc (suc (suc zero))) s = leb 1 (retention_rule_count s.retention)
step_valid _ s = true

-- `toggleVM`.
unfoldable pub toggle_vm : CachedVm → List CachedVm → List CachedVm
toggle_vm v selected =
    if any (has_key v) selected
    then keep (λ item. not (has_key v item)) selected
    else selected ++ (v ∷ [])

-- `addPath`: the paths after it.
unfoldable pub add_path : Text → List Text → List Text
add_path draft paths =
    if is_empty (trim draft) || any (same_text (trim draft)) paths
    then paths
    else paths ++ (trim draft ∷ [])

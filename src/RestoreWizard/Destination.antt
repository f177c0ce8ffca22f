-- ===== src/RestoreWizard/Destination.antt =====
-- What web/src/components/RestoreWizard.tsx works out from its props and its state at each render.
use prox_back.Prelude.{
  ℕ, suc, ◌-◌, ◌/◌, ◌%◌, Bool, true, false, not, List, [], ◌∷◌, Option, none, some, ◌&&◌, ◌||◌,
  ◌==◌, ℤ, pos, negsuc, if◌then◌else◌, is_empty, find?,
}
use prox_back.Js.Text.{Text, codes, same_text, trim}
use prox_back.Js.Number.{Number, finite, number_of_text}
use prox_back.Api.Inventory.{
  CachedVm, Host, Agent, SourceKind, vm_source, agent_source, Backup, source_vmid,
}

pub data RestoreMode : Type 0 where
  alongside overwrite : RestoreMode

-- The props of the wizard, with a restore point.
pub record Props : Type 0 where
  pub backup : Backup
  pub hosts : List Host
  pub agents : List Agent
  pub vms : List CachedVm

-- What the operator fills in.
pub record Form : Type 0 where
  pub mode : RestoreMode
  pub host_id : Text
  pub node : Text
  pub vmid : Text
  pub storage : Text
  pub agent_id : Text
  pub dest_path : Text
  pub confirm_name : Text

abbrev pub is_vm_kind : SourceKind → Bool
is_vm_kind vm_source = true
is_vm_kind agent_source = false

-- `isVM`.
abbrev pub is_vm : Props → Bool
is_vm props = is_vm_kind props.backup.source_kind

-- `isVma`.
unfoldable pub is_vma : Props → Bool
is_vma props = is_vm props && just_vma props.backup.disks
  where
    just_vma : List Text → Bool
    just_vma (name ∷ []) = same_text name (codes "vma")
    just_vma _ = false

on_host : Option Text → CachedVm → Bool
on_host none v = true
on_host (some id) v = same_text v.host_id id

-- `a ?? b`.
abbrev pub or_else : Option CachedVm → Option CachedVm → Option CachedVm
or_else (some v) b = some v
or_else none b = b

-- `source`.
unfoldable pub source : Props → Option CachedVm
unfolding source_vmid on_host
source props =
    if is_vm props
    then (elim (source_vmid props.backup.source_id) [
      | none ↦ none
      | some vmid ↦
          or_else (find? (λ v. v.vmid == vmid && on_host props.backup.host_id v) props.vms)
            (find? (λ v. v.vmid == vmid) props.vms)
    ])
    else none

-- A fraction that is an integer.
integer : ℤ → ℕ → Option ℤ
integer (pos n) d = if n % suc d == 0 then some (pos (n / suc d)) else none
integer (negsuc n) d = if suc n % suc d == 0 then some (negsuc (suc n / suc d - 1)) else none

integer_of_number : Number → Option ℤ
unfolding integer
integer_of_number (finite m d) = integer m d
integer_of_number _ = none

-- `Number(vmid)`, if `Number.isInteger` holds of it.
unfoldable pub integer_of : Text → Option ℤ
unfolding integer_of_number
integer_of text = integer_of_number (number_of_text text)

is_vmid : ℤ → ℕ → Bool
is_vmid (pos n) vmid = n == vmid
is_vmid (negsuc n) vmid = false

-- The machine of that VMID on that host, in the cache.
unfoldable pub machine_at : List CachedVm → Text → ℤ → Option CachedVm
unfolding is_vmid
machine_at vms host_id target =
    find? (λ v. same_text v.host_id host_id && is_vmid target v.vmid) vms

-- `destinationVM`.
unfoldable pub destination_vm : Props → Form → Option CachedVm
destination_vm props form =
    if is_vm props
    then (elim (integer_of form.vmid) [
      | none ↦ none
      | some target ↦ machine_at props.vms form.host_id target
    ])
    else none

abbrev pub is_overwrite_mode : RestoreMode → Bool
is_overwrite_mode alongside = false
is_overwrite_mode overwrite = true

-- `overwrite`.
abbrev pub is_overwrite : Props → Form → Bool
is_overwrite props form = is_vm props && is_overwrite_mode form.mode

abbrev pub name_of : Option CachedVm → Text
name_of none = []
name_of (some v) = v.name

-- `expectedName`.
unfoldable pub expected_name : Props → Form → Text
expected_name props form = name_of (destination_vm props form)

-- `confirmSatisfied`.
unfoldable pub confirm_satisfied : Props → Form → Bool
confirm_satisfied props form =
    not (is_overwrite props form)
    || (not (is_empty (trim form.confirm_name))
        && (is_empty (expected_name props form)
            || same_text (trim form.confirm_name) (expected_name props form)))

-- The positive integer of a VMID field.
abbrev pub positive : Option ℤ → Option ℕ
positive (some (pos (suc n))) = some (suc n)
positive _ = none

unfoldable pub vmid_of : Text → Option ℕ
vmid_of text = positive (integer_of text)

abbrev pub is_some : Option ℕ → Bool
is_some none = false
is_some (some n) = true

-- `destinationValid`.
unfoldable pub destination_valid : Props → Form → Bool
destination_valid props form =
    if is_vm props
    then not (is_empty form.host_id)
      && (not (is_empty (trim form.node)) && is_some (vmid_of form.vmid))
    else not (is_empty form.agent_id) && not (is_empty (trim form.dest_path))

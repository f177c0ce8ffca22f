-- ===== src/Tests/Wizards.antt =====
-- The restore wizard at concrete inputs.
use prox_back.Prelude.{◌≡◌, refl, ◌<◌, true, false, [], ◌∷◌, none, some, arith}
use prox_back.Js.Text.{codes, trim, same_text, print_nat}
use prox_back.Js.Number.{number_of_text}
use prox_back.Api.Inventory.{vm_source}
use prox_back.RestoreWizard.Destination.{
  alongside, overwrite, Props, is_overwrite_mode, machine_at, destination_vm, confirm_satisfied,
  destination_valid, integer_of, vmid_of, expected_name,
}
use prox_back.RestoreWizard.Steps.{
  Wizard, choose_mode, submit, suggested, posts, RestoreRequest, submission, step_name, step_valid,
  is_offered, handle, aim, open_wizard, reset_form, home_vmid, opened,
}
use prox_back.RestoreWizard.Confirmed.{IsConfirmed, submission-IsConfirmed}
use prox_back.RestoreWizard.Reset.{Reached-unconfirmed, suggested-overwrite}

abbrev props : Props
props = record {
  backup = record {
    id = codes "31";
    source_kind = vm_source;
    source_id = codes "1_100";
    host_id = some (codes "1");
    node = some (codes "pve1");
    disks = codes "scsi0" ∷ [];
  };
  hosts = record { id = codes "1"; name = codes "north" } ∷ [];
  agents = [];
  vms = record { host_id = codes "1"; vmid = 100; name = codes "db-01"; node = codes "pve1" } ∷ [];
}

abbrev closed : Wizard
closed = record {
  step = 0;
  form = record {
    mode = alongside;
    host_id = [];
    node = [];
    vmid = [];
    storage = [];
    agent_id = [];
    dest_path = [];
    confirm_name = [];
  };
  asked = 0;
  suggesting = false;
  suggest_error = none;
  submitting = false;
  error = none;
}

-- Ready to overwrite the machine that the restore point came from.
abbrev ready : Wizard
ready = record closed {
  step = 2;
  form = record {
    mode = overwrite;
    host_id = codes "1";
    node = codes "pve1";
    vmid = codes "100";
    storage = [];
    agent_id = [];
    dest_path = [];
    confirm_name = codes "db-01";
  };
}

ready_offered : is_offered props ready submit ≡ true
unfolding is_offered step_valid step_name destination_valid confirm_satisfied expected_name
    destination_vm machine_at integer_of vmid_of number_of_text trim same_text
ready_offered = refl

submission_example :
    (r : RestoreRequest) × (submission props ready.form ≡ posts r)
    × IsConfirmed props ready.form r.mode r.confirm_name r.target
submission_example = submission-IsConfirmed props ready ready_offered

abbrev opened_now : Wizard
opened_now = open_wizard props closed

opened_mode : is_overwrite_mode opened_now.form.mode ≡ false
unfolding open_wizard aim reset_form same_text
opened_mode = refl

unconfirmed_example :
    (opened_now.form.confirm_name ≡ []) × ((open_wizard props ready).form.mode ≡ alongside)
unconfirmed_example = Reached-unconfirmed props opened_now ready (opened closed) opened_mode

asked_once : 0 < opened_now.asked
unfolding open_wizard aim reset_form same_text
asked_once = omega arith

suggested_example :
    (is_offered props (handle props opened_now (choose_mode overwrite)) (suggested 104) ≡ true)
    × ((handle props opened_now (choose_mode overwrite)).form.vmid ≡ home_vmid props)
    × ((handle props (handle props opened_now (choose_mode overwrite)) (suggested 104)).form.mode
        ≡ overwrite)
    × ((handle props (handle props opened_now (choose_mode overwrite)) (suggested 104)).form.vmid
        ≡ print_nat 104)
suggested_example = suggested-overwrite props opened_now 104 refl opened_mode asked_once

-- ===== src/Tests/Machines.antt =====
-- The machines, the monitor and the dashboard at concrete inputs.
use prox_back.Prelude.{
  ◌≤◌, ◌≡◌, ◌⊎◌, Bool, true, false, List, [], ◌∷◌, none, some, ◌&&◌, length, All, Among, count_of,
  arith,
}
use prox_back.Js.Text.{Text, codes, same_text}
use prox_back.Js.Number.{whole}
use prox_back.Js.Value.{undefined, str, arr, of_list}
use prox_back.Js.Map.{get_entry}
use prox_back.Js.Order.Weighted.{Weighted}
use prox_back.Api.Policy.Highlights.{vm}
use prox_back.Api.Tags.{Guest, tags_of, vms_with_tag}
use prox_back.JobWizard.Form.{vms}
use prox_back.JobWizard.Form
use prox_back.VirtualMachines.{covers, job_for_vm, count_at, tag_counts}
use prox_back.VirtualMachines.Protected.{job_for_vm-covers}
use prox_back.VirtualMachines.Counted.{times, tag_counts-vms_with_tag}
use prox_back.Monitor.{RunDetail, samples_after}
use prox_back.Monitor.Samples.{streak, IsWindow, samples_after-IsWindow}
use prox_back.Dashboard.{
  protected, at_risk, unprotected, Workload, every, status_weight, counts_of, count_for, chosen,
  rows_of,
}
use prox_back.Dashboard.Rows.{rows_of-ordered}

abbrev guest : Guest
guest = record {
  host_id = codes "h";
  host_name = codes "lab";
  vmid = 101;
  name = codes "db-01";
  node = codes "n1";
  tags = arr (of_list (str (codes "prod") ∷ []));
}

abbrev job : Bool → Form.Job
job enabled = record {
  id = codes "j";
  name = codes "nightly";
  kind = vm;
  target_id = codes "t";
  schedule = undefined;
  retention = undefined;
  policy = undefined;
  enabled = enabled;
  sources = vms [];
  tag_filter = some (codes "prod");
}

abbrev jobs : List Form.Job
jobs = job false ∷ job true ∷ []

covers_example :
    ((job_for_vm jobs guest ≡ none) × All (λ j. covers guest j ≡ false) jobs)
    ⊎ ((j : Form.Job) × (job_for_vm jobs guest ≡ some j)
        × Among j jobs
        × (covers guest j ≡ true)
        × ((j.enabled ≡ true) ⊎ All (λ k. (covers guest k && k.enabled) ≡ false) jobs))
covers_example = job_for_vm-covers jobs guest

-- Any order of the tags.
abbrev unordered : Text → Text → Bool
unordered a b = false

once : All (λ g. times (codes "prod") (tags_of g) ≤ 1) (guest ∷ [])
unfolding tags_of same_text
once = (omega arith, tt)

counts_example :
    count_at (codes "prod") (tag_counts unordered (guest ∷ []))
    ≡ length (vms_with_tag (guest ∷ []) (codes "prod"))
counts_example = tag_counts-vms_with_tag unordered (codes "prod") (guest ∷ []) once

abbrev polls : List (List RunDetail)
polls =
    (record { id = codes "1"; throughput_bps = whole 7 } ∷ [])
    ∷ (record { id = codes "1"; throughput_bps = whole 5 } ∷ [])
    ∷ []

samples_example : IsWindow (streak (codes "1") polls) (get_entry (codes "1") (samples_after polls))
samples_example = samples_after-IsWindow (codes "1") polls

abbrev workloads : List Workload
workloads =
    record { name = codes "a"; status = protected }
    ∷ record { name = codes "b"; status = unprotected }
    ∷ record { name = codes "c"; status = at_risk }
    ∷ []

abbrev is_anything : Workload → Bool
is_anything w = true

rows_example :
    (length (rows_of unordered every workloads) ≡ count_for (counts_of workloads) every)
    × (count_of is_anything (rows_of unordered every workloads)
        ≡ count_of is_anything (chosen every workloads))
    × Weighted (λ w. status_weight w.status) (rows_of unordered every workloads)
rows_example = rows_of-ordered unordered every workloads is_anything

-- ===== src/VirtualMachines.antt =====
-- web/src/pages/VirtualMachinesPage.tsx: the job of a machine, the counts of tags, the filters and
-- the refresh of the inventory.
pub mod Protected
pub mod Narrowed
pub mod Counted
use prox_back.Prelude.{
  ℕ, ◌+◌, ◌-◌, Bool, true, false, not, List, [], ◌∷◌, ◌++◌, Option, none, some, ◌&&◌, ◌||◌, ◌==◌,
  if◌then◌else◌, is_empty, any, all, keep, find?, length, map,
}
use prox_back.Js.Text.{Text, codes, same_text, trim, print_nat}
use prox_back.Js.Text.Start.{starts_with}
use prox_back.Js.Map.{get_entry, set_entry}
use prox_back.Api.Policy.Highlights.{JobKind, vm, agent}
use prox_back.Api.Tags.{Guest, tags_of, has_text, all_tags_of}
use prox_back.JobWizard.Form.{Job, vm_sources_of}

abbrev pub is_vm_job : JobKind → Bool
is_vm_job vm = true
is_vm_job agent = false

-- The test of the `filter` in `jobForVM`; an empty tag filter is none.
unfoldable pub covers : Guest → Job → Bool
unfolding tags_of vm_sources_of same_text
covers guest job = is_vm_job job.kind && by_filter job.tag_filter
  where
    by_sources : Bool
    by_sources =
        any (λ source. same_text source.host_id guest.host_id && source.vmid == guest.vmid)
          (vm_sources_of job.sources)

    by_filter : Option Text → Bool
    by_filter (some (c ∷ s)) = has_text (c ∷ s) (tags_of guest)
    by_filter _ = by_sources

-- `a ?? b`.
unfoldable pub or_job : Option Job → Option Job → Option Job
or_job none b = b
or_job (some job) b = some job

-- `list[0]`.
unfoldable pub first_job : List Job → Option Job
first_job [] = none
first_job (job ∷ jobs) = some job

-- `jobForVM`.
unfoldable pub job_for_vm : List Job → Guest → Option Job
unfolding covers or_job first_job
job_for_vm jobs guest =
    let matches = keep (covers guest) jobs in
    or_job (find? (λ job. job.enabled) matches) (first_job matches)

-- `counts.get(tag) ?? 0`.
unfoldable pub count_at : Text → List (Text × ℕ) → ℕ
unfolding get_entry
count_at tag counts = elim (get_entry tag counts) [ none ↦ 0 | some n ↦ n ]

unfoldable pub zero_tags : List (Text × ℕ) → List Text → List (Text × ℕ)
unfolding set_entry
zero_tags counts [] = counts
zero_tags counts (tag ∷ tags) = zero_tags (set_entry tag 0 counts) tags

unfoldable pub count_tags : List (Text × ℕ) → List Text → List (Text × ℕ)
unfolding set_entry count_at
count_tags counts [] = counts
count_tags counts (tag ∷ tags) = count_tags (set_entry tag (count_at tag counts + 1) counts) tags

unfoldable pub count_guests : List (Text × ℕ) → List Guest → List (Text × ℕ)
unfolding count_tags tags_of
count_guests counts [] = counts
count_guests counts (guest ∷ guests) = count_guests (count_tags counts (tags_of guest)) guests

-- `tagCounts`.
unfoldable pub tag_counts : (Text → Text → Bool) → List Guest → List (Text × ℕ)
unfolding zero_tags count_guests all_tags_of
tag_counts follows guests = count_guests (zero_tags [] (all_tags_of follows guests)) guests

-- `text.includes(needle)`.
unfoldable pub includes_text : Text → Text → Bool
unfolding starts_with
includes_text needle [] = is_empty needle
includes_text needle (c ∷ s) = starts_with needle (c ∷ s) || includes_text needle s

pub record Filters : Type 0 where
  pub query : Text
  pub host_filter : Text
  pub tag_filters : List Text

-- `to_lower` is `toLowerCase`.
module _ (to_lower : Text → Text) where
  -- The last test of the `filter`.
  unfoldable pub is_found : Text → Guest → Bool
  unfolding includes_text tags_of print_nat
  is_found needle guest =
      includes_text needle (to_lower guest.name)
      || includes_text needle (print_nat guest.vmid)
      || includes_text needle (to_lower guest.node)
      || includes_text needle (to_lower guest.host_name)
      || any (includes_text needle) (tags_of guest)

  unfoldable pub passes : Filters → Guest → Bool
  unfolding is_found tags_of same_text trim
  passes f guest =
      let needle = to_lower (trim f.query) in
      (same_text f.host_filter (codes "all") || same_text guest.host_id f.host_filter)
      && (all (λ tag. has_text tag (tags_of guest)) f.tag_filters)
      && (is_empty needle || is_found needle guest)

  -- `filtered`.
  unfoldable pub filtered : Filters → List Guest → List Guest
  unfolding passes
  filtered f guests = keep (passes f) guests

-- `toggleTag`.
unfoldable pub toggle_tag : Filters → Text → Filters
unfolding same_text
toggle_tag f tag = record f {
  tag_filters =
      if has_text tag f.tag_filters
      then keep (λ s. not (same_text s tag)) f.tag_filters
      else f.tag_filters ++ (tag ∷ []);
}

-- `clearFilters`.
unfoldable pub clear_filters : Filters
clear_filters = record { query = []; host_filter = codes "all"; tag_filters = [] }

-- What the operator is told of a refresh, with what each host answered: the number of its machines,
-- or nothing where it could not be reached.
pub data Told : Type 0 where
  no_hosts : Told
  refreshed : ℕ → ℕ → Told
  incomplete : ℕ → ℕ → Told

unfoldable pub answered : List (Option ℕ) → ℕ
answered [] = 0
answered (some found ∷ results) = answered results + 1
answered (none ∷ results) = answered results

unfoldable pub total_found : List (Option ℕ) → ℕ
total_found [] = 0
total_found (some found ∷ results) = found + total_found results
total_found (none ∷ results) = total_found results

-- `onRefreshInventory`, whose own `refresh` of the list never throws.
unfoldable pub refresh_inventory : List (Option ℕ) → Told
unfolding answered total_found
refresh_inventory [] = no_hosts
refresh_inventory (r ∷ rs) =
    let results = r ∷ rs in
    if length results - answered results == 0
    then refreshed (total_found results) (answered results)
    else incomplete (answered results) (length results)

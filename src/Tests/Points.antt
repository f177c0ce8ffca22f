-- ===== src/Tests/Points.antt =====
-- The restore points at concrete inputs.
use prox_back.Prelude.{
  ℕ, ◌≤◌, ◌≡◌, refl, true, false, List, [], ◌∷◌, Option, none, some, length, min, All, Among,
  count_of, inl, inr,
}
use prox_back.Js.Text.{Text, codes, same_text}
use prox_back.Js.Map.{get_entry, set_entry}
use prox_back.Api.Inventory.{vm_source}
use prox_back.RestorePoints.{
  Point, SourceGroup, source_key, by_id, parent_of, group_sources, chain_depths,
}
use prox_back.RestorePoints.Depths.{HasDepth, root, child}
use prox_back.RestorePoints.Chains.{chain_depths-HasDepth, chain_depths-bounded}
use prox_back.RestorePoints.Groups.{points_of}
use prox_back.RestorePoints.Workloads.{IsSummary, group_sources-IsSummary}

abbrev point : Text → Text → Option Text → ℕ → Point
point id created_at parent_id size_bytes = record {
  id = id;
  source_kind = vm_source;
  source_id = codes "h_101";
  source_name = codes "db-01";
  host_id = some (codes "h");
  host_name = none;
  node = none;
  created_at = created_at;
  size_bytes = size_bytes;
  parent_id = parent_id;
  last_verified_at = none;
  verify_failed = false;
}

abbrev full : Point
full = point (codes "a") (codes "x") none 10

abbrev second : Point
second = point (codes "b") (codes "xx") (some (codes "a")) 2

abbrev third : Point
third = point (codes "c") (codes "xxx") (some (codes "b")) 3

-- An increment is listed before its parent.
abbrev points : List Point
points = third ∷ full ∷ second ∷ []

points-found : All (λ q. get_entry q.id (by_id [] points) ≡ some q) points
unfolding by_id set_entry get_entry same_text
points-found = (refl, (refl, (refl, tt)))

third-HasDepth : HasDepth (by_id [] points) third 2
unfolding by_id set_entry get_entry same_text parent_of
third-HasDepth = child third second 1 refl (child second full 0 refl (root full refl))

depth_example : get_entry (codes "c") (chain_depths points) ≡ some (min 6 2)
depth_example = chain_depths-HasDepth points third 2 points-found (inl refl) third-HasDepth

-- Two points that are each other's parent.
abbrev circle : List Point
circle =
    point (codes "a") (codes "x") (some (codes "b")) 1
    ∷ point (codes "b") (codes "x") (some (codes "a")) 1
    ∷ []

circle_example : (d : ℕ) × (get_entry (codes "b") (chain_depths circle) ≡ some d) × (d ≤ 6)
circle_example =
    chain_depths-bounded circle (point (codes "b") (codes "x") (some (codes "a")) 1)
      (inr (inl refl))

-- A text stands for the instant of its length.
abbrev instant : Text → Option ℕ
instant s = some (length s)

workload_example :
    (g : SourceGroup) × Among g (group_sources instant points)
    × (same_text g.key (source_key full) ≡ true)
    × (count_of (λ h. same_text h.key (source_key full)) (group_sources instant points) ≡ 1)
    × IsSummary instant g (points_of (source_key full) points)
workload_example = group_sources-IsSummary instant points full (inr (inl refl))

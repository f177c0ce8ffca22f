-- ===== src/RestorePoints.antt =====
-- web/src/pages/RestorePointsPage.tsx: restore points grouped by workload, their chains, and which
-- workloads are open.
pub mod Depths
pub mod Table
pub mod Chains
pub mod Groups
pub mod Workloads
use prox_back.Prelude.{
  ℕ, zero, suc, ◌+◌, Bool, true, false, not, List, [], ◌∷◌, ◌++◌, Option, none, some, if◌then◌else◌,
  ltb, leb, min, map, any, keep, length,
}
use prox_back.Js.Text.{Text, codes, same_text}
use prox_back.Js.Map.{get_entry, set_entry}
use prox_back.Js.Order.{sort_by}
use prox_back.Api.Inventory.{SourceKind, vm_source, agent_source}

-- What the page reads of a `Backup`.
pub record Point : Type 0 where
  pub id : Text
  pub source_kind : SourceKind
  pub source_id : Text
  pub source_name : Text
  pub host_id : Option Text
  pub host_name : Option Text
  pub node : Option Text
  pub created_at : Text
  pub size_bytes : ℕ
  pub parent_id : Option Text
  pub last_verified_at : Option Text
  pub verify_failed : Bool

pub record SourceGroup : Type 0 where
  pub key : Text
  pub source_kind : SourceKind
  pub source_id : Text
  pub source_name : Text
  pub host_id : Option Text
  pub host_name : Option Text
  pub node : Option Text
  pub count : ℕ
  pub latest : Text
  pub total_bytes : ℕ
  pub last_verified_at : Option Text

unfoldable pub kind_text : SourceKind → Text
kind_text vm_source = codes "vm"
kind_text agent_source = codes "agent"

-- `value ?? ''`.
unfoldable pub text_or_empty : Option Text → Text
text_or_empty none = []
text_or_empty (some s) = s

-- `sourceKey`.
unfoldable pub source_key : Point → Text
unfolding kind_text text_or_empty
source_key p = kind_text p.source_kind ++ (b':' ∷ (text_or_empty p.host_id ++ (b':' ∷ p.source_id)))

unfoldable pub verified_at : Point → Option Text
verified_at p = if p.verify_failed then none else p.last_verified_at

unfoldable pub new_group : Point → SourceGroup
unfolding source_key verified_at
new_group p = record {
  key = source_key p;
  source_kind = p.source_kind;
  source_id = p.source_id;
  source_name = p.source_name;
  host_id = p.host_id;
  host_name = p.host_name;
  node = p.node;
  count = 1;
  latest = p.created_at;
  total_bytes = p.size_bytes;
  last_verified_at = verified_at p;
}

-- `get_time` is `new Date(text).getTime()`, counted from the first instant that a Date can hold,
-- and nothing where it is NaN.
module _ (get_time : Text → Option ℕ) where
  -- `new Date(a).getTime() > new Date(b).getTime()`.
  unfoldable pub is_later : Text → Text → Bool
  is_later a b = elim (get_time a) [
    | none ↦ false
    | some s ↦ elim (get_time b) [ none ↦ false | some t ↦ ltb t s ]
  ]

  -- `new Date(a).getTime() >= new Date(b).getTime()`.
  unfoldable pub is_no_earlier : Text → Text → Bool
  is_no_earlier a b = elim (get_time a) [
    | none ↦ false
    | some s ↦ elim (get_time b) [ none ↦ false | some t ↦ leb t s ]
  ]

  -- `newer`; `!a` holds of an empty text too.
  unfoldable pub newer : Option Text → Option Text → Option Text
  unfolding is_no_earlier
  newer none b = b
  newer (some []) b = b
  newer (some (c ∷ a)) none = some (c ∷ a)
  newer (some (c ∷ a)) (some []) = some (c ∷ a)
  newer (some (c ∷ a)) (some (d ∷ b)) =
      if is_no_earlier (c ∷ a) (d ∷ b) then some (c ∷ a) else some (d ∷ b)

  -- What the loop does to the group that is there.
  unfoldable pub add_point : SourceGroup → Point → SourceGroup
  unfolding newer verified_at is_later
  add_point g p = record g {
    count = g.count + 1;
    total_bytes = g.total_bytes + p.size_bytes;
    last_verified_at = newer g.last_verified_at (verified_at p);
    latest = if is_later p.created_at g.latest then p.created_at else g.latest;
  }

  -- One round of the loop.
  unfoldable pub group_point : List (Text × SourceGroup) → Point → List (Text × SourceGroup)
  unfolding add_point new_group source_key get_entry set_entry
  group_point groups p = elim (get_entry (source_key p) groups) [
    | some existing ↦ set_entry (source_key p) (add_point existing p) groups
    | none ↦ set_entry (source_key p) (new_group p) groups
  ]

  unfoldable pub group_all : List (Text × SourceGroup) → List Point → List (Text × SourceGroup)
  unfolding group_point
  group_all groups [] = groups
  group_all groups (p ∷ ps) = group_all (group_point groups p) ps

  -- `groupSources`.
  unfoldable pub group_sources : List Point → List SourceGroup
  unfolding group_all sort_by is_later
  group_sources ps = sort_by (λ a b. is_later b.latest a.latest) (map (λ e. e.1) (group_all [] ps))

-- `byId`: of two points with one id the last is found.
unfoldable pub by_id : List (Text × Point) → List Point → List (Text × Point)
unfolding set_entry
by_id entries [] = entries
by_id entries (p ∷ ps) = by_id (set_entry p.id p entries) ps

unfoldable pub parent_of : List (Text × Point) → Point → Option Point
unfolding get_entry
parent_of points p = elim p.parent_id [ none ↦ none | some id ↦ get_entry id points ]

-- `depthOf`: the depth and the depths that are known then; the guard is counted down.
unfoldable pub depth_of : List (Text × Point) → ℕ → Point → List (Text × ℕ) → ℕ × List (Text × ℕ)
unfolding get_entry set_entry parent_of
depth_of points zero p depths = elim (get_entry p.id depths) [
  | some d ↦ (d, depths)
  | none ↦ (0, set_entry p.id 0 depths)
]
depth_of points (suc guard) p depths = elim (get_entry p.id depths) [
  | some d ↦ (d, depths)
  | none ↦ elim (parent_of points p) [
    | none ↦ (0, set_entry p.id 0 depths)
    | some parent ↦ deeper p.id (depth_of points guard parent depths)
  ]
]
  where
    deeper : Text → ℕ × List (Text × ℕ) → ℕ × List (Text × ℕ)
    deeper id found = (min 6 (found.0 + 1), set_entry id (min 6 (found.0 + 1)) found.1)

unfoldable pub all_depths : List (Text × Point) → ℕ → List Point → List (Text × ℕ) → List (Text × ℕ)
unfolding depth_of
all_depths points guard [] depths = depths
all_depths points guard (p ∷ ps) depths =
    all_depths points guard ps (depth_of points guard p depths).1

-- `chainDepths`.
unfoldable pub chain_depths : List Point → List (Text × ℕ)
unfolding by_id all_depths
chain_depths ps = all_depths (by_id [] ps) (length ps) ps []

-- `openKeys ?? new Set(groups[0] ? [groups[0].key] : [])`; a set as its elements in order.
unfoldable pub open_keys : Option (List Text) → List SourceGroup → List Text
open_keys (some keys) groups = keys
open_keys none [] = []
open_keys none (g ∷ groups) = g.key ∷ []

-- `toggle`: the new `openKeys`.
unfoldable pub toggle : Option (List Text) → List SourceGroup → Text → Option (List Text)
unfolding open_keys
toggle keys groups key =
    let shown = open_keys keys groups in
    if any (λ k. same_text k key) shown
    then some (keep (λ k. not (same_text k key)) shown)
    else some (shown ++ (key ∷ []))

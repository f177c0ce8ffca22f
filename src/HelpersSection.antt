-- ===== src/HelpersSection.antt =====
-- web/src/components/HelpersSection.tsx: the nodes of the inventory and the helpers that serve them.
pub mod Keys
pub mod Listing
pub mod Gaps
use prox_back.Prelude.{
  ℕ, ◌^◌, ◌-◌, Bool, true, false, not, List, [], ◌∷◌, ◌++◌, Option, none, some, ◌&&◌, ◌||◌, ltb,
  any, keep, map, if◌then◌else◌, is_empty,
}
use prox_back.Js.Text.{Text, codes, same_text, print_nat}
use prox_back.Js.Number.{scan_digits}
use prox_back.Js.Order.{sort_by}
use prox_back.Api.Inventory.{CachedVm, Host}

pub data HelperStatus : Type 0 where
  online offline unassigned : HelperStatus

-- What the section reads of a `Helper`; `undefined` and `null` are no host.
pub record Helper : Type 0 where
  pub host_id : Option Text
  pub node : Text
  pub status : HelperStatus

abbrev pub is_unassigned_status : HelperStatus → Bool
is_unassigned_status unassigned = true
is_unassigned_status _ = false

abbrev pub is_no_host : Option Text → Bool
is_no_host none = true
is_no_host (some id) = is_empty id

-- `isHelperUnassigned`.
abbrev pub is_helper_unassigned : Helper → Bool
is_helper_unassigned helper = is_unassigned_status helper.status || is_no_host helper.host_id

-- A node is pushed to the list of its host, if it is not there; a new host comes last.
unfoldable pub push_node : Text → Text → List (Text × List Text) → List (Text × List Text)
unfolding same_text
push_node host_id node [] = (host_id, node ∷ []) ∷ []
push_node host_id node (e ∷ es) =
    let rest = push_node host_id node es in
    if same_text e.0 host_id
    then (e.0, if any (same_text node) e.1 then e.1 else e.1 ++ (node ∷ [])) ∷ es
    else e ∷ rest

unfoldable pub nodes_from : List (Text × List Text) → List CachedVm → List (Text × List Text)
unfolding push_node
nodes_from nodes [] = nodes
nodes_from nodes (vm ∷ vms) = nodes_from (push_node vm.host_id vm.node nodes) vms

-- The order of `sort()`, by code units.
unfoldable pub text_follows : Text → Text → Bool
text_follows [] t = false
text_follows (c ∷ s) [] = true
text_follows (c ∷ s) (d ∷ t) =
    let rest = text_follows s t in if ltb d c then true else if ltb c d then false else rest

-- `Object.keys` and `Object.entries`: array indices come first, by their number, then the other keys as
-- they were added.
unfoldable pub index_of : Text → Option ℕ
unfolding scan_digits same_text print_nat
index_of key =
    let value = (scan_digits 0 0 key).value in
    if same_text key (print_nat value) && ltb value (2 ^ 32 - 1) then some value else none

unfoldable pub key_follows : Text → Text → Bool
unfolding index_of
key_follows a b = later (index_of a) (index_of b)
  where
    later : Option ℕ → Option ℕ → Bool
    later (some m) (some n) = ltb n m
    later none (some n) = true
    later _ none = false

unfoldable pub object_entries : {A : Type 0} → List (Text × A) → List (Text × A)
unfolding sort_by key_follows
object_entries entries = sort_by (λ a b. key_follows a.0 b.0) entries

-- `nodesByHost`.
unfoldable pub nodes_by_host : List CachedVm → List (Text × List Text)
unfolding nodes_from sort_by text_follows
nodes_by_host vms = map (λ e. (e.0, sort_by text_follows e.1)) (nodes_from [] vms)

abbrev pub key_of : Text → Text → Text
key_of host_id node = host_id ++ (58 ∷ node)

-- `String(helper.hostId)`, of a helper that is assigned.
abbrev pub host_text : Option Text → Text
host_text none = []
host_text (some id) = id

-- `covered`.
unfoldable pub covered_keys : List Helper → List Text
covered_keys helpers =
    map (λ helper. key_of (host_text helper.host_id) helper.node)
      (keep (λ helper. not (is_helper_unassigned helper)) helpers)

pub record Gap : Type 0 where
  pub host_id : Text
  pub host_name : Text
  pub node : Text

unfoldable pub name_of_host : List Host → Text → Text
unfolding same_text
name_of_host [] id = id
name_of_host (host ∷ hosts) id =
    let rest = name_of_host hosts id in if same_text host.id id then host.name else rest

-- The inner loop of `uncovered`.
unfoldable pub gaps_of_nodes : List Host → List Text → Text → List Text → List Gap
unfolding name_of_host same_text
gaps_of_nodes hosts covered host_id [] = []
gaps_of_nodes hosts covered host_id (node ∷ nodes) =
    let rest = gaps_of_nodes hosts covered host_id nodes in
    if any (same_text (key_of host_id node)) covered
    then rest
    else record { host_id = host_id; host_name = name_of_host hosts host_id; node = node } ∷ rest

unfoldable pub gaps_of : List Host → List Text → List (Text × List Text) → List Gap
unfolding gaps_of_nodes
gaps_of hosts covered [] = []
gaps_of hosts covered (e ∷ es) = gaps_of_nodes hosts covered e.0 e.1 ++ gaps_of hosts covered es

-- `uncovered`.
unfoldable pub uncovered : List Host → List Helper → List CachedVm → List Gap
unfolding gaps_of covered_keys object_entries nodes_by_host
uncovered hosts helpers vms =
    gaps_of hosts (covered_keys helpers) (object_entries (nodes_by_host vms))

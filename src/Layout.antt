-- ===== src/Layout.antt =====
-- The navigation of web/src/components/Layout.tsx.
pub mod Shown
use prox_back.Prelude.{
  Bool, true, false, not, List, [], ◌∷◌, Option, none, some, keep, map, is_empty,
}
use prox_back.Js.Text.{Text, codes}
use prox_back.Api.Roles.{Capabilities}

-- `keyof Capabilities`.
pub data Capability : Type 0 where
  manage_users manage_infrastructure operate_jobs view_audit : Capability

pub record NavItem : Type 0 where
  pub to : Text
  pub label : Text
  pub needs : Option Capability

pub record NavGroup : Type 0 where
  pub heading : Text
  pub items : List NavItem

-- An item that every role sees, and one that needs a capability.
abbrev pub item : Text → Text → NavItem
item to label = record { to = to; label = label; needs = none }

abbrev pub item_for : Capability → Text → Text → NavItem
item_for needs to label = record { to = to; label = label; needs = some needs }

abbrev pub nav_groups : List NavGroup
nav_groups =
    record { heading = codes "Overview"; items = item (codes "/") (codes "Dashboard") ∷ [] }
    ∷ record {
      heading = codes "Infrastructure";
      items =
          item (codes "/hosts") (codes "Proxmox Hosts")
          ∷ item (codes "/vms") (codes "Virtual Machines")
          ∷ item (codes "/agents") (codes "Agents")
          ∷ [];
    }
    ∷ record {
      heading = codes "Protection";
      items =
          item (codes "/jobs") (codes "Backup Jobs")
          ∷ item (codes "/monitor") (codes "Monitor")
          ∷ item (codes "/restore-points") (codes "Restore Points")
          ∷ item (codes "/targets") (codes "Storage Targets")
          ∷ [];
    }
    ∷ record {
      heading = codes "System";
      items =
          item_for manage_users (codes "/users") (codes "Users")
          ∷ item_for view_audit (codes "/audit") (codes "Audit")
          ∷ item (codes "/settings") (codes "Settings")
          ∷ [];
    }
    ∷ []

-- `can[needs]`.
unfoldable pub has : Capabilities → Capability → Bool
has can manage_users = can.manage_users
has can manage_infrastructure = can.manage_infrastructure
has can operate_jobs = can.operate_jobs
has can view_audit = can.view_audit

unfoldable pub is_seen : Capabilities → NavItem → Bool
unfolding has
is_seen can i = elim i.needs [ none ↦ true | some needs ↦ has can needs ]

-- A group with the items that can be used.
unfoldable pub seen_of : Capabilities → NavGroup → NavGroup
unfolding is_seen
seen_of can group = record group { items = keep (is_seen can) group.items }

-- `navFor`.
unfoldable pub nav_for : Capabilities → List NavGroup
unfolding seen_of
nav_for can = keep (λ group. not (is_empty group.items)) (map (seen_of can) nav_groups)

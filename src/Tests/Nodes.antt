-- ===== src/Tests/Nodes.antt =====
-- The nodes without a helper at concrete inputs.
use prox_back.Prelude.{◌≡◌, refl, List, [], ◌∷◌, none, some}
use prox_back.Js.Text.{codes}
use prox_back.Api.Inventory.{CachedVm, Host}
use prox_back.HelpersSection.{Helper, online, unassigned, uncovered}

abbrev clusters : List Host
clusters =
    record { id = codes "10"; name = codes "lab" }
    ∷ record { id = codes "2"; name = codes "prod" }
    ∷ []

-- Two clusters have a node of the same name; one of them has a helper, another helper is not assigned.
abbrev machines : List CachedVm
machines =
    record { host_id = codes "10"; vmid = 100; name = codes "db"; node = codes "pve1" }
    ∷ record { host_id = codes "2"; vmid = 101; name = codes "web"; node = codes "pve1" }
    ∷ []

abbrev helpers : List Helper
helpers =
    record { host_id = some (codes "10"); node = codes "pve1"; status = online }
    ∷ record { host_id = none; node = codes "pve1"; status = unassigned }
    ∷ []

gap_test :
    uncovered clusters helpers machines
    ≡ record { host_id = codes "2"; host_name = codes "prod"; node = codes "pve1" } ∷ []
unfolding uncovered
gap_test = refl

-- The entries of an object come by their number.
order_test :
    uncovered clusters [] machines
    ≡ record { host_id = codes "2"; host_name = codes "prod"; node = codes "pve1" }
      ∷ record { host_id = codes "10"; host_name = codes "lab"; node = codes "pve1" }
      ∷ []
unfolding uncovered
order_test = refl

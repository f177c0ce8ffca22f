-- ===== src/HelpersSection/Gaps.antt =====
-- The nodes without a helper, which web/src/components/HelpersSection.tsx names.
use prox_back.Prelude.{◌≡◌, List, [], ◌∷◌, ◌⊎◌}
use prox_back.Js.Text.{Text}
use prox_back.HelpersSection.{Gap}

-- A list of gaps has one for that node of that cluster.
abbrev pub HasGap : Text → Text → List Gap → Type 0
HasGap host node [] = ⊥
HasGap host node (g ∷ gs) = ((g.host_id ≡ host) × (g.node ≡ node)) ⊎ HasGap host node gs

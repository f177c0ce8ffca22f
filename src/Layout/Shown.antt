-- ===== src/Layout/Shown.antt =====
-- The navigation of web/src/components/Layout.tsx beside the routes of web/src/App.tsx.
use prox_back.Prelude.{◌≡◌, ◌≢◌, ◌↔◌, Bool, true, List, any, arith}
use prox_back.Js.Text.{Text, same_text}
use prox_back.Api.Roles.{Role, admin, operator, viewer, capabilities_for}
use prox_back.App.{not_found, page_of, page, guarded}
use prox_back.Layout.{NavGroup, seen_of, is_seen, has, nav_for}

-- The navigation has an item that leads to the path.
abbrev pub offers : List NavGroup → Text → Bool
offers groups path = any (λ group. any (λ i. same_text path i.to) group.items) groups

-- For every role and every path of a page, the navigation has an item for the path exactly if the
-- page itself, and not a refusal, is shown there.
pub offers-guarded :
    (role : Role) (path : Text)
    → page_of path ≢ not_found
    → (offers (nav_for (capabilities_for role)) path ≡ true)
      ↔ (guarded role (page_of path) ≡ page (page_of path))
unfolding nav_for seen_of is_seen has capabilities_for page_of guarded
offers-guarded admin path h = ground arith
offers-guarded operator path h = ground arith
offers-guarded viewer path h = ground arith

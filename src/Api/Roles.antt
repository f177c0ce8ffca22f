-- ===== src/Api/Roles.antt =====
-- Users and roles in web/src/api.ts: what the console lets a role see and change.
pub mod Laws
use prox_back.Prelude.{Bool, true, false, ◌||◌, if◌then◌else◌}
use prox_back.Js.Text.{Text, codes}
use prox_back.Js.Value.{Value, undefined, null, property, lookup}
use prox_back.Api.Schedule.{is_text}

pub data Role : Type 0 where
  admin operator viewer : Role

-- `parseRole`.
unfoldable pub parse_role : Value → Role
unfolding is_text
parse_role value =
    if is_text value (codes "operator")
    then operator
    else if is_text value (codes "viewer")
    then viewer
    else admin

pub record Capabilities : Type 0 where
  pub manage_users : Bool
  pub manage_infrastructure : Bool
  pub operate_jobs : Bool
  pub view_audit : Bool

abbrev pub is_admin : Role → Bool
is_admin admin = true
is_admin _ = false

abbrev pub is_operator : Role → Bool
is_operator operator = true
is_operator _ = false

-- `capabilitiesFor`.
unfoldable pub capabilities_for : Role → Capabilities
capabilities_for role = record {
  manage_users = is_admin role;
  manage_infrastructure = is_admin role;
  operate_jobs = is_admin role || is_operator role;
  view_audit = is_admin role;
}

-- `a ?? b`.
abbrev pub or_else : Value → Value → Value
or_else undefined b = b
or_else null b = b
or_else a b = a

-- `roleOf`; `me.user?.role` is undefined without a user.
unfoldable pub role_of : Value → Role
unfolding parse_role lookup
role_of me =
    parse_role
      (or_else (property (codes "role") (property (codes "user") me)) (property (codes "role") me))

-- ===== src/App.antt =====
-- The gate of web/src/App.tsx: what the console shows before, in and after a session, the requests
-- that change it, and its routes.
pub mod Granted
pub mod SignOut
use prox_back.Prelude.{
  ℕ, zero, suc, ◌+◌, ◌-◌, ◌≡◌, Bool, true, false, not, List, [], ◌∷◌, Option, none, some, ◌&&◌,
  ◌||◌, ◌==◌, ltb, if◌then◌else◌, pos,
}
use prox_back.Js.Text.{Text, codes, same_text}
use prox_back.Js.Number.{Number, nan, finite}
use prox_back.Js.Value.{Value, undefined, null, bool, num, str, obj, arr, property, lookup}
use prox_back.Api.Roles.{Role, viewer, or_else, role_of, capabilities_for}
use prox_back.Api.Errors.{Thrown, api, error_message}

-- `!!value`.
unfoldable pub truthy : Value → Bool
truthy undefined = false
truthy null = false
truthy (bool b) = b
truthy (num nan) = false
truthy (num (finite (pos zero) d)) = false
truthy (num n) = true
truthy (str []) = false
truthy (str (c ∷ s)) = true
truthy (obj fields) = true
truthy (arr items) = true

-- What `useSession` gives of the phase `ready`.
pub record Ready : Type 0 where
  pub user : Value
  pub role : Role
  pub must_change_password : Bool
  pub server_version : Value

pub data Phase : Type 0 where
  loading setup : Phase
  login : Bool → Phase
  ready : Ready → Phase
  unreachable : Text → Phase

-- What `getSetupStatus` and `getMe` give.
pub data Answer : Type 0 where
  given : Value → Answer
  failed : Thrown → Answer

-- The phase that the answer of `getMe` leads to.
unfoldable pub ready_of : Value → Ready
unfolding truthy role_of lookup
ready_of me = record {
  user = property (codes "user") me;
  role = role_of me;
  must_change_password = truthy (property (codes "mustChangePassword") me);
  server_version = or_else (property (codes "serverVersion") me) (str []);
}

-- `isApiError(err) && err.isUnauthorized`.
unfoldable pub is_unauthorized : Thrown → Bool
is_unauthorized (api e) = e.status == 401
is_unauthorized _ = false

-- `bootstrap`, for the answer about the set-up and the one about the session.
unfoldable pub bootstrap : Answer → Answer → Phase
unfolding truthy ready_of is_unauthorized error_message lookup
bootstrap (failed err) me = unreachable (error_message err)
bootstrap (given status) me =
    if truthy (property (codes "needsSetup") status) then setup else after me
  where
    after : Answer → Phase
    after (given value) = ready (ready_of value)
    after (failed err) =
        if is_unauthorized err
        then login (truthy (property (codes "defaultLogin") status))
        else unreachable (error_message err)

-- The gate: its phase, the calls of `getMe` after a sign-in and of `apiLogout` that are under way,
-- the server's name, and whether its `getSettings` is under way and not cancelled.
pub record Gate : Type 0 where
  pub phase : Phase
  pub refreshes : ℕ
  pub logouts : ℕ
  pub server_name : Text
  pub asks_name : Bool

abbrev pub is_ready : Phase → Bool
is_ready (ready r) = true
is_ready _ = false

abbrev pub is_loading : Phase → Bool
is_loading loading = true
is_loading _ = false

abbrev pub is_unreachable : Phase → Bool
is_unreachable (unreachable message) = true
is_unreachable _ = false

-- The login and the set-up page, which call `onAuthenticated`.
abbrev pub asks_who : Phase → Bool
asks_who setup = true
asks_who (login default_login) = true
asks_who _ = false

-- `setPhase`, with the effect on `phase.state`: the settings are asked for on the way into `ready`
-- and the call is cancelled on the way out.
unfoldable pub set_phase : Gate → Phase → Gate
set_phase g phase = record g {
  phase = phase;
  asks_name = is_ready phase && (g.asks_name || not (is_ready g.phase));
}

unfoldable pub initial : Gate
initial = record {
  phase = loading;
  refreshes = 0;
  logouts = 0;
  server_name = codes "ProxBack";
  asks_name = false;
}

-- What happens: `bootstrap` ends, is run again, a page signs in (with `user` and `user.role`), the
-- `getMe` after that ends, the operator signs out, `apiLogout` ends, `setMustChangePassword` and
-- `setServerName` are called, `getSettings` ends.
pub data Event : Type 0 where
  booted : Answer → Answer → Event
  retried : Event
  authenticated : Value → Option Role → Event
  refreshed : Answer → Event
  sign_out signed_out : Event
  set_must_change : Bool → Event
  set_server_name : Text → Event
  named : Answer → Event

unfoldable pub can_happen : Gate → Event → Bool
can_happen g (booted status me) = is_loading g.phase
can_happen g retried = is_unreachable g.phase
can_happen g (authenticated user role) = asks_who g.phase
can_happen g (refreshed answer) = ltb 0 g.refreshes
can_happen g sign_out = is_ready g.phase
can_happen g signed_out = ltb 0 g.logouts
can_happen g (set_must_change value) = is_ready g.phase
can_happen g (set_server_name name) = is_ready g.phase
can_happen g (named answer) = g.asks_name

-- `user.role ?? 'viewer'`.
unfoldable pub role_or_viewer : Option Role → Role
role_or_viewer none = viewer
role_or_viewer (some role) = role

-- What `setMustChangePassword` makes of the phase.
unfoldable pub must_change : Bool → Phase → Phase
must_change value (ready r) = ready (record r { must_change_password = value })
must_change value phase = phase

-- What the name in the settings is, if it is a text that is not empty.
unfoldable pub name_of : Value → Option Text
unfolding lookup
name_of settings = text_of (property (codes "serverName") settings)
  where
    text_of : Value → Option Text
    text_of (str (c ∷ s)) = some (c ∷ s)
    text_of _ = none

unfoldable pub handle : Gate → Event → Gate
unfolding bootstrap set_phase ready_of role_or_viewer must_change name_of
handle g (booted status me) = set_phase g (bootstrap status me)
handle g retried = set_phase g loading
handle g (authenticated user role) =
    record (set_phase g (
      ready (record {
        user = user;
        role = role_or_viewer role;
        must_change_password = false;
        server_version = str [];
      }))) { refreshes = g.refreshes + 1 }
handle g (refreshed (given me)) = record (set_phase g (ready (ready_of me))) {
  refreshes = g.refreshes - 1;
}
handle g (refreshed (failed err)) = record g { refreshes = g.refreshes - 1 }
handle g sign_out = record g { logouts = g.logouts + 1 }
handle g signed_out = record (set_phase g (login false)) { logouts = g.logouts - 1 }
handle g (set_must_change value) = set_phase g (must_change value g.phase)
handle g (set_server_name name) = record g { server_name = name }
handle g (named (given settings)) = elim (name_of settings) [
  | none ↦ record g { asks_name = false }
  | some name ↦ record g { server_name = name; asks_name = false }
]
handle g (named (failed err)) = record g { asks_name = false }

-- The gates that can come about, each with what happened, the last event first.
pub data Reached : List Event → Gate → Type 0 where
  started : Reached [] initial
  handled :
      (g : Gate) (past : List Event) (event : Event)
      → Reached past g
      → can_happen g event ≡ true
      → Reached (event ∷ past) (handle g event)

-- The pages of `Routes`.
pub data Page : Type 0 where
  dashboard hosts vms jobs monitor restore_points targets agents settings users audit : Page
  not_found : Page

-- The page of a path in lower case with no slash at its end.
unfoldable pub page_of : Text → Page
unfolding same_text
page_of path =
    if same_text path (codes "/")
    then dashboard
    else if same_text path (codes "/hosts")
    then hosts
    else if same_text path (codes "/vms")
    then vms
    else if same_text path (codes "/jobs")
    then jobs
    else if same_text path (codes "/monitor")
    then monitor
    else if same_text path (codes "/restore-points")
    then restore_points
    else if same_text path (codes "/targets")
    then targets
    else if same_text path (codes "/agents")
    then agents
    else if same_text path (codes "/settings")
    then settings
    else if same_text path (codes "/users")
    then users
    else if same_text path (codes "/audit")
    then audit
    else not_found

pub data Screen : Type 0 where
  boot : Option Text → Screen
  setup_page : Screen
  login_page : Bool → Screen
  page : Page → Screen
  -- What `AdminOnly` shows in place of a page.
  denied : Page → Screen

-- `AdminOnly` around the pages that have it.
unfoldable pub guarded : Role → Page → Screen
unfolding capabilities_for
guarded role users = if (capabilities_for role).manage_users then page users else denied users
guarded role audit = if (capabilities_for role).manage_users then page audit else denied audit
guarded role other = page other

-- What `App` renders at a path.
unfoldable pub screen : Phase → Text → Screen
unfolding page_of guarded
screen loading path = boot none
screen setup path = setup_page
screen (login default_login) path = login_page default_login
screen (ready r) path = guarded r.role (page_of path)
screen (unreachable message) path = boot (some message)

-- ===== src/App/Granted.antt =====
-- Where the role of a session of web/src/App.tsx comes from.
use prox_back.Prelude.{
  ◌≡◌, ◌≢◌, refl, sym, ap, ◌∙◌, ◌⊎◌, inl, inr, Bool, List, [], ◌∷◌, Option, none, some, arith,
  Bool-cases, Option-cases,
}
use prox_back.Js.Text.{Text, codes, same_text}
use prox_back.Js.Value.{Value, undefined, null, bool, num, str, obj, arr, property}
use prox_back.Api.Roles.{
  Role, admin, operator, viewer, or_else, parse_role, role_of, capabilities_for,
}
use prox_back.Api.Schedule.{is_text}
use prox_back.Api.Errors.{Thrown}
use prox_back.App.{
  truthy, Ready, Phase, loading, setup, login, ready, unreachable, Answer, given, failed, ready_of,
  bootstrap, Gate, set_phase, initial, Event, booted, retried, authenticated, refreshed, sign_out,
  signed_out, set_must_change, set_server_name, named, role_or_viewer, must_change, name_of, handle,
  Reached, started, handled, Page, users, audit, page_of, page, guarded, screen,
}

-- The role in the last answer that carried one; a login without a role counts as a viewer.
abbrev last_role : List Event → Option Role
last_role [] = none
last_role (authenticated user role ∷ past) = some (role_or_viewer role)
last_role (refreshed (given me) ∷ past) = some (role_of me)
last_role (booted status (given me) ∷ past) = some (role_of me)
last_role (_ ∷ past) = last_role past

-- A phase whose role, if it is that of a session, is the one.
abbrev HasRole : Option Role → Phase → Type 0
HasRole role phase = (r : Ready) → phase ≡ ready r → role ≡ some r.role

HasRole-ready_of : (role : Option Role) (r : Ready) → role ≡ some r.role → HasRole role (ready r)
HasRole-ready_of role r e s k = let same : r ≡ s = cc in e ∙ ap (λ x. some x.role) same

bootstrap-HasRole :
    (status me : Answer) → HasRole (last_role (booted status me ∷ [])) (bootstrap status me)
unfolding bootstrap ready_of
bootstrap-HasRole (failed err) me r e = absurd cc
bootstrap-HasRole (given status) (given value) r e =
    elim (Bool-cases (truthy (property (codes "needsSetup") status))) [
      | inl t ↦ absurd (let k : setup ≡ ready r = rw t at e in cc)
      | inr t ↦ HasRole-ready_of (some (role_of value)) (ready_of value) refl r (rw t at e)
    ]
bootstrap-HasRole (given status) (failed err) r e = absurd (ground arith)

-- An event that leaves the past of the role as it is leads to the role that was there.
must_change-HasRole :
    (role : Option Role) (value : Bool) (phase : Phase)
    → HasRole role phase
    → HasRole role (must_change value phase)
unfolding must_change
must_change-HasRole role value (ready s) h r e =
    h s refl
    ∙ (let same : record s { must_change_password = value } ≡ r = cc in ap (λ x. some x.role) same)
must_change-HasRole role value loading h r e = absurd cc
must_change-HasRole role value setup h r e = absurd cc
must_change-HasRole role value (login d) h r e = absurd cc
must_change-HasRole role value (unreachable m) h r e = absurd cc

handle-HasRole :
    (g : Gate) (past : List Event) (event : Event)
    → HasRole (last_role past) g.phase
    → HasRole (last_role (event ∷ past)) (handle g event).phase
unfolding handle set_phase ready_of
handle-HasRole g past (booted status (given me)) h r e = bootstrap-HasRole status (given me) r e
handle-HasRole g past (booted status (failed err)) h r e = absurd (bootstrap-failed status err r e)
  where
    bootstrap-failed :
        (status : Answer) (err : Thrown) (r : Ready) → bootstrap status (failed err) ≢ ready r
    bootstrap-failed status err r e = let k = bootstrap-HasRole status (failed err) r e in cc
handle-HasRole g past retried h r e = absurd cc
handle-HasRole g past (authenticated user role) h r e =
    HasRole-ready_of (some (role_or_viewer role)) _ refl r e
handle-HasRole g past (refreshed (given me)) h r e =
    HasRole-ready_of (some (role_of me)) (ready_of me) refl r e
handle-HasRole g past (refreshed (failed err)) h r e = h r e
handle-HasRole g past sign_out h r e = h r e
handle-HasRole g past signed_out h r e = absurd cc
handle-HasRole g past (set_must_change value) h r e =
    must_change-HasRole (last_role past) value g.phase h r e
handle-HasRole g past (set_server_name name) h r e = h r e
handle-HasRole g past (named (given settings)) h r e = elim (Option-cases (name_of settings)) [
  | inl n ↦ h r (rw (n, handle) at e)
  | inr (name, n) ↦ h r (rw (n, handle) at e)
]
handle-HasRole g past (named (failed err)) h r e = h r e

Reached-HasRole : (past : List Event) (g : Gate) → Reached past g → HasRole (last_role past) g.phase
unfolding initial
Reached-HasRole _ _ started r e = absurd cc
Reached-HasRole _ _ (handled g past event reached c) r e =
    handle-HasRole g past event (Reached-HasRole past g reached) r e

guarded-admin :
    (role : Role) (p : Page) (which : (p ≡ users) ⊎ (p ≡ audit)) (q : Page)
    → guarded role q ≡ page p
    → role ≡ admin
unfolding guarded capabilities_for
guarded-admin role p (inl w) q e = ground arith
guarded-admin role p (inr w) q e = ground arith

-- The role that an answer of `getMe` states: that of its user, or its own where the user has none.
abbrev own_role : Value → Value → Value
own_role undefined top = top
own_role null top = top
own_role role top = role

abbrev pub stated_role : Value → Value
stated_role me =
    own_role (property (codes "role") (property (codes "user") me)) (property (codes "role") me)

-- An answer of `getMe` that states neither the operator nor the viewer.
abbrev pub StatesNoLess : Value → Type 0
StatesNoLess me =
    (stated_role me ≢ str (codes "operator")) × (stated_role me ≢ str (codes "viewer"))

-- The last sign-in or answer of `getMe`: a sign-in that named the administrator, or an answer that
-- states no lesser role.
abbrev pub IsGranted : List Event → Type 0
IsGranted [] = ⊥
IsGranted (authenticated user role ∷ past) = role ≡ some admin
IsGranted (refreshed (given me) ∷ past) = StatesNoLess me
IsGranted (booted status (given me) ∷ past) = StatesNoLess me
IsGranted (_ ∷ past) = IsGranted past

own_role_lem : (role top : Value) → or_else role top ≡ own_role role top
own_role_lem undefined top = refl
own_role_lem null top = refl
own_role_lem (bool b) top = refl
own_role_lem (num n) top = refl
own_role_lem (str s) top = refl
own_role_lem (obj o) top = refl
own_role_lem (arr l) top = refl

parse_role-admin :
    (v : Value) → parse_role v ≡ admin → (v ≢ str (codes "operator")) × (v ≢ str (codes "viewer"))
unfolding parse_role is_text same_text
parse_role-admin v e = (
  (λ k. let lesser : parse_role v ≡ operator = rw k refl in absurd cc),
  (λ k. let lesser : parse_role v ≡ viewer = rw k refl in absurd cc),
)

role_of-admin : (me : Value) → role_of me ≡ admin → StatesNoLess me
unfolding role_of
role_of-admin me e = parse_role-admin (stated_role me) (
    ap parse_role (sym (own_role_lem (property (codes "role") (property (codes "user") me)) _)) ∙ e)

role_or_viewer-admin : (role : Option Role) → role_or_viewer role ≡ admin → role ≡ some admin
unfolding role_or_viewer
role_or_viewer-admin none e = absurd cc
role_or_viewer-admin (some role) e = ap some e

some_inj : (a b : Role) → some a ≡ some b → a ≡ b
some_inj a b e = cc

last_role-IsGranted : (past : List Event) → last_role past ≡ some admin → IsGranted past
last_role-IsGranted [] e = absurd cc
last_role-IsGranted (authenticated user role ∷ past) e = role_or_viewer-admin role (some_inj _ _ e)
last_role-IsGranted (refreshed (given me) ∷ past) e = role_of-admin me (some_inj _ _ e)
last_role-IsGranted (refreshed (failed err) ∷ past) e = last_role-IsGranted past e
last_role-IsGranted (booted status (given me) ∷ past) e = role_of-admin me (some_inj _ _ e)
last_role-IsGranted (booted status (failed err) ∷ past) e = last_role-IsGranted past e
last_role-IsGranted (retried ∷ past) e = last_role-IsGranted past e
last_role-IsGranted (sign_out ∷ past) e = last_role-IsGranted past e
last_role-IsGranted (signed_out ∷ past) e = last_role-IsGranted past e
last_role-IsGranted (set_must_change value ∷ past) e = last_role-IsGranted past e
last_role-IsGranted (set_server_name name ∷ past) e = last_role-IsGranted past e
last_role-IsGranted (named answer ∷ past) e = last_role-IsGranted past e

-- In every reachable state in which the page of the users or of the audit is shown, the last of the
-- sign-ins and the answers of `getMe` was a sign-in that named the administrator, or an answer in which
-- the role of the user, or its own where the user has none, is neither the operator nor the viewer.
pub screen-IsGranted :
    (past : List Event) (g : Gate) (path : Text) (p : Page)
    → Reached past g
    → (p ≡ users) ⊎ (p ≡ audit)
    → screen g.phase path ≡ page p
    → IsGranted past
unfolding screen
screen-IsGranted past g path p reached which e =
    last_role-IsGranted past (shown g.phase (Reached-HasRole past g reached) e)
  where
    shown :
        (phase : Phase)
        → HasRole (last_role past) phase
        → screen phase path ≡ page p
        → last_role past ≡ some admin
    shown (ready r) h e = h r refl ∙ ap some (guarded-admin r.role p which (page_of path) e)
    shown loading h e = absurd cc
    shown setup h e = absurd cc
    shown (login d) h e = absurd cc
    shown (unreachable m) h e = absurd cc

-- ===== src/UsersPage.antt =====
-- web/src/pages/UsersPage.tsx: the order of the users, the guard of the last administrator, the forms,
-- and the requests that change a role or delete an account, with what the server of
-- internal/store/users.go does with them.
pub mod Admins
use prox_back.Prelude.{
  ℕ, ◌+◌, ◌≡◌, Bool, true, false, not, List, [], ◌∷◌, ◌++◌, Option, none, some, ◌&&◌, ◌||◌, ◌==◌,
  ltb, leb, if◌then◌else◌, is_empty, length, map, keep, any, find?,
}
use prox_back.Js.Text.{Text, codes, same_text, trim}
use prox_back.Js.Order.{sort_by}
use prox_back.Api.Roles.{Role, admin, operator, viewer, is_admin}
use prox_back.Forms.{Submission, invalid, posted, refuse_if}

-- What the page reads of a `UserAccount`.
pub record UserAccount : Type 0 where
  pub id : Text
  pub username : Text
  pub role : Role

-- `ROLES.indexOf(role)`.
unfoldable pub role_index : Role → ℕ
role_index admin = 0
role_index operator = 1
role_index viewer = 2

-- `users`; `name_follows` is `a.localeCompare(b) > 0`.
unfoldable pub sorted_users : (Text → Text → Bool) → List UserAccount → List UserAccount
unfolding sort_by role_index
sorted_users name_follows users =
    sort_by
      (λ a b.
        if role_index a.role == role_index b.role
        then name_follows a.username b.username
        else ltb (role_index b.role) (role_index a.role))
      users

-- `adminCount`.
unfoldable pub admin_count : List UserAccount → ℕ
admin_count users = length (keep (λ user. is_admin user.role) users)

-- `lastAdmin`, which disables the change of the role and the delete button.
unfoldable pub is_last_admin : List UserAccount → UserAccount → Bool
unfolding admin_count
is_last_admin users user = is_admin user.role && leb (admin_count users) 1

pub record UserCreate : Type 0 where
  pub username : Text
  pub password : Text
  pub role : Role

-- `onSubmit` of `AddUserModal`.
unfoldable pub add_user : Text → Text → Role → Submission UserCreate
unfolding refuse_if trim
add_user username password role =
    let name = trim username in
    refuse_if (is_empty name) (codes "Enter a username.") (
      refuse_if (ltb (length password) 8) (codes "The password must be at least 8 characters.")
        (posted (record { username = name; password = password; role = role })))

-- `role === user.role`.
unfoldable pub same_role : Role → Role → Bool
same_role admin admin = true
same_role operator operator = true
same_role viewer viewer = true
same_role _ _ = false

-- `onSubmit` of `ChangeRoleModal`: the role to patch, if the dialog does not close at once.
unfoldable pub change_role : UserAccount → Role → Option Role
unfolding same_role
change_role user role = if same_role role user.role then none else some role

-- `onSubmit` of `ResetPasswordModal`.
unfoldable pub reset_password : Text → Submission Text
unfolding refuse_if
reset_password password =
    refuse_if (ltb (length password) 8) (codes "The password must be at least 8 characters.")
      (posted password)

-- The requests that remove an administrator.
pub data Request : Type 0 where
  patched : UserAccount → Role → Request
  deleted : UserAccount → Request

unfoldable pub same_request : Request → Request → Bool
unfolding same_text same_role
same_request (patched a role) (patched b other) = same_text a.id b.id && same_role role other
same_request (deleted a) (deleted b) = same_text a.id b.id
same_request _ _ = false

unfoldable pub without_request : Request → List Request → List Request
unfolding same_request
without_request request [] = []
without_request request (r ∷ rs) =
    let rest = without_request request rs in if same_request r request then rs else r ∷ rest

-- `UpdateUserRole` and `DeleteUser` of the server up to their last statement: whether they refuse, since
-- the account is not there, or it is the last administrator.
abbrev pub refuses : List UserAccount → Option UserAccount → Bool
refuses accounts none = true
refuses accounts (some user) = is_last_admin accounts user

unfoldable pub is_refused : List UserAccount → Request → Bool
unfolding is_last_admin same_role same_text
is_refused accounts (deleted user) =
    refuses accounts (find? (λ other. same_text other.id user.id) accounts)
is_refused accounts (patched user role) =
    demotes (find? (λ other. same_text other.id user.id) accounts)
  where
    demotes : Option UserAccount → Bool
    demotes none = true
    demotes (some other) = not (same_role other.role role) && is_last_admin accounts other

-- Their last statement, which is one of its own: the server has no transaction around the two.
unfoldable pub after : List UserAccount → Request → List UserAccount
unfolding same_text
after users (patched user role) =
    map (λ other. if same_text other.id user.id then record other { role = role } else other) users
after users (deleted user) = keep (λ other. not (same_text other.id user.id)) users

-- The page and the server: the accounts, the list that the page loaded last, the row that is being
-- deleted, the account whose role is being changed and whether that is being saved, the requests that
-- the server has not looked at, and those that it will not refuse and has not carried out.
pub record Site : Type 0 where
  pub accounts : List UserAccount
  pub loaded : List UserAccount
  pub deleting : Option Text
  pub role_for : Option UserAccount
  pub saving : Bool
  pub sent : List Request
  pub passed : List Request

-- The page after it has loaded the accounts.
unfoldable pub loaded_site : List UserAccount → Site
loaded_site accounts = record {
  accounts = accounts;
  loaded = accounts;
  deleting = none;
  role_for = none;
  saving = false;
  sent = [];
  passed = [];
}

-- The operator confirms the deletion of a row, opens the role of a row, saves another, or closes that
-- dialog; the server reaches the last statement of a request or refuses it, or carries it out; the page
-- loads the accounts again.
pub data Event : Type 0 where
  confirm_delete : UserAccount → Event
  open_role : UserAccount → Event
  save_role : Role → Event
  close_role : Event
  checked written : Request → Event
  refreshed : Event

-- The row of an account of the list.
unfoldable pub is_row : List UserAccount → UserAccount → Bool
unfolding same_text same_role
is_row users user =
    any
      (λ other.
        same_text other.id user.id
        && (same_text other.username user.username && same_role other.role user.role))
      users

abbrev pub is_deleting : Option Text → Text → Bool
is_deleting none id = false
is_deleting (some other) id = same_text other id

abbrev pub has_user : Option UserAccount → Bool
has_user none = false
has_user (some user) = true

abbrev pub can_save : Option UserAccount → Role → Bool
can_save none role = false
can_save (some user) role = not (same_role role user.role)

-- The buttons of a row are disabled for the last administrator of the list that was loaded; the dialog
-- of a role covers the rows.
unfoldable pub can_happen : Site → Event → Bool
unfolding is_row is_last_admin same_request same_role same_text
can_happen s (confirm_delete user) =
    is_row s.loaded user
    && (not (is_last_admin s.loaded user)
        && (not (is_deleting s.deleting user.id) && not (has_user s.role_for)))
can_happen s (open_role user) =
    is_row s.loaded user && (not (is_last_admin s.loaded user) && not (has_user s.role_for))
can_happen s (save_role role) = can_save s.role_for role && not s.saving
can_happen s close_role = has_user s.role_for
can_happen s (checked request) = any (λ r. same_request r request) s.sent
can_happen s (written request) = any (λ r. same_request r request) s.passed
can_happen s refreshed = true

-- The `finally` of the request, and of a change of the role that was carried out, `onClose`.
unfoldable pub ended : Site → Request → Bool → Site
ended s (deleted user) refused = record s { deleting = none }
ended s (patched user role) true = record s { saving = false }
ended s (patched user role) false = record s { saving = false; role_for = none }

unfoldable pub save : Site → Role → Option UserAccount → Site
save s role none = s
save s role (some user) = record s { saving = true; sent = s.sent ++ (patched user role ∷ []) }

unfoldable pub handle : Site → Event → Site
unfolding without_request is_refused after ended save
handle s (confirm_delete user) = record s {
  deleting = some user.id;
  sent = s.sent ++ (deleted user ∷ []);
}
handle s (open_role user) = record s { role_for = some user }
handle s (save_role role) = save s role s.role_for
handle s close_role = record s { role_for = none }
handle s (checked request) =
    let next = record s { sent = without_request request s.sent } in
    if is_refused s.accounts request
    then ended next request true
    else record next { passed = s.passed ++ (request ∷ []) }
handle s (written request) =
    ended
      (record s { accounts = after s.accounts request; passed = without_request request s.passed })
      request false
handle s refreshed = record s { loaded = s.accounts }

unfoldable pub handle_all : Site → List Event → Site
unfolding handle
handle_all s [] = s
handle_all s (event ∷ events) = handle_all (handle s event) events

unfoldable pub can_all_happen : Site → List Event → Bool
unfolding can_happen handle
can_all_happen s [] = true
can_all_happen s (event ∷ events) = can_happen s event && can_all_happen (handle s event) events

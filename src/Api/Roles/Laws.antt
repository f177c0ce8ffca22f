-- ===== src/Api/Roles/Laws.antt =====
-- `roleOf` and `capabilitiesFor` of web/src/api.ts together.
use prox_back.Prelude.{◌≡◌, ap, ◌↔◌, ◌⊎◌, true, false, arith}
use prox_back.Js.Text.{Text, codes}
use prox_back.Js.Text.Equality.{eq_of_same_text}
use prox_back.Js.Value.{Value, str, property}
use prox_back.Api.Schedule.{is_text}
use prox_back.Api.Roles.{
  Role, admin, operator, viewer, parse_role, capabilities_for, or_else, role_of,
}

is_text-eq : (v : Value) (t : Text) → is_text v t ≡ true → v ≡ str t
unfolding is_text
is_text-eq (str s) t h = ap str (eq_of_same_text s t h)
is_text-eq _ t h = cc

-- `parseRole` gives less than an administrator exactly to the texts "operator" and "viewer".
parse_role_iff :
    (v : Value)
    → ((parse_role v ≡ operator) ↔ (v ≡ str (codes "operator")))
      × ((parse_role v ≡ viewer) ↔ (v ≡ str (codes "viewer")))
unfolding parse_role
parse_role_iff v = (
  (ground (arith, is_text-eq v (codes "operator"), is_text-eq v (codes "viewer")), λ e. rw e),
  (ground (arith, is_text-eq v (codes "operator"), is_text-eq v (codes "viewer")), λ e. rw e),
)

-- The role field that counts: the user's, or the one beside it where the user's is missing.
abbrev pub role_field : Value → Value
role_field me =
    or_else (property (codes "role") (property (codes "user") me)) (property (codes "role") me)

-- What is hidden from a role that two fields name exactly.
hidden_of :
    (r : Role) (f op view : Value)
    → ((r ≡ operator) ↔ (f ≡ op))
    → ((r ≡ viewer) ↔ (f ≡ view))
    → (((capabilities_for r).operate_jobs ≡ false) ↔ (f ≡ view))
      × (((capabilities_for r).manage_infrastructure ≡ false) ↔ ((f ≡ view) ⊎ (f ≡ op)))
unfolding capabilities_for
hidden_of viewer f op view p q = ground arith
hidden_of operator f op view p q = ground arith
hidden_of admin f op view p q = ground arith

-- The console hides the running of jobs exactly from a signed-in "viewer", and the
-- infrastructure exactly from a "viewer" and an "operator"; a session with any other role
-- field, or with none, sees everything.
pub role_of-hidden :
    (me : Value)
    → (((capabilities_for (role_of me)).operate_jobs ≡ false)
        ↔ (role_field me ≡ str (codes "viewer")))
      × (((capabilities_for (role_of me)).manage_infrastructure ≡ false)
          ↔ ((role_field me ≡ str (codes "viewer")) ⊎ (role_field me ≡ str (codes "operator"))))
unfolding role_of
role_of-hidden me =
    let (is_op, is_view) = parse_role_iff (role_field me) in
    hidden_of _ (role_field me) (str (codes "operator")) (str (codes "viewer")) is_op is_view

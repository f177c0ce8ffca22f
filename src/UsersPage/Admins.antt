-- ===== src/UsersPage/Admins.antt =====
-- The administrators among the accounts of web/src/pages/UsersPage.tsx, and two requests at once.
use prox_back.Prelude.{
  find?, ℕ, ◌+◌, ◌≡◌, refl, sym, ap, subst, ◌∙◌, Bool, true, false, not, List, [], ◌∷◌, ◌&&◌,
  if◌then◌else◌, keep, All, Among, All_of_Among, count_of, length-keep, Among-keep, Bool-cases, inl,
  inr, arith,
}
use prox_back.Js.Text.{Text, same_text}
use prox_back.Js.Text.Equality.{same_text_refl, eq_of_same_text}
use prox_back.Api.Roles.{Role, is_admin}
use prox_back.UsersPage.{
  same_role, is_row, is_refused, refuses, loaded_site, Event, confirm_delete, checked, written,
  handle_all, can_all_happen, can_happen, handle, ended, without_request, same_request, UserAccount,
  admin_count, is_last_admin, deleted, after,
}

-- No two accounts have one ID.
abbrev pub HaveOwnIds : List UserAccount → Type 0
HaveOwnIds [] = Unit
HaveOwnIds (user ∷ users) =
    All (λ other. same_text other.id user.id ≡ false) users × HaveOwnIds users

abbrev admins : List UserAccount → ℕ
admins = count_of (λ user. is_admin user.role)

differ_sym : (s t : Text) → same_text s t ≡ false → same_text t s ≡ false
differ_sym s t h = elim (Bool-cases (same_text t s)) [
  | inl e ↦
      absurd (let k : same_text s t ≡ true = rw (eq_of_same_text t s e) (same_text_refl s) in cc)
  | inr e ↦ e
]

-- Accounts with other IDs stay.
keep-others :
    (id : Text) (users : List UserAccount)
    → All (λ other. same_text other.id id ≡ false) users
    → keep (λ other. not (same_text other.id id)) users ≡ users
keep-others id [] h = refl
keep-others id (u ∷ us) h = rw (h.0, keep-others id us h.1) refl

-- Without the account, one administrator less, if it is one.
count-deleted :
    (user : UserAccount) (users : List UserAccount)
    → HaveOwnIds users
    → Among user users
    → admins (after users (deleted user)) + (if is_admin user.role then 1 else 0) ≡ admins users
unfolding after
count-deleted user [] h k = absurd k
count-deleted user (u ∷ us) h (inl e) =
    let rest =
      keep-others user.id us
        (subst (λ i. All (λ o. same_text o.id i ≡ false) us) (ap (λ x. x.id) (sym e)) h.0) in
    let same : same_text u.id user.id ≡ true =
      ap (λ x. same_text x.id user.id) (sym e) ∙ same_text_refl user.id in
    let role = ap (λ x. is_admin x.role) (sym e) in rw (same, rest, role) (omega arith)
count-deleted user (u ∷ us) h (inr k) =
    let other =
      differ_sym user.id u.id (All_of_Among (λ o. same_text o.id u.id ≡ false) user us h.0 k) in
    let rest = count-deleted user us h.1 k in rw other (omega arith)

others-deleted :
    (user : UserAccount) (id : Text) (users : List UserAccount)
    → All (λ other. same_text other.id id ≡ false) users
    → All (λ other. same_text other.id id ≡ false) (after users (deleted user))
unfolding after
others-deleted user id [] h = tt
others-deleted user id (u ∷ us) h = elim (Bool-cases (same_text u.id user.id)) [
  | inl e ↦ rw e (others-deleted user id us h.1)
  | inr e ↦ rw e (h.0, others-deleted user id us h.1)
]

own-deleted :
    (user : UserAccount) (users : List UserAccount)
    → HaveOwnIds users
    → HaveOwnIds (after users (deleted user))
unfolding after
own-deleted user [] h = tt
own-deleted user (u ∷ us) h = elim (Bool-cases (same_text u.id user.id)) [
  | inl e ↦ rw e (own-deleted user us h.1)
  | inr e ↦ rw e (others-deleted user u.id us h.0, own-deleted user us h.1)
]

-- What a row of an account of the list asks.
same_role_refl : (role : Role) → same_role role role ≡ true
unfolding same_role
same_role_refl role = ground arith

row_of_Among :
    (user : UserAccount) (users : List UserAccount) → Among user users → is_row users user ≡ true
unfolding is_row
row_of_Among user [] h = absurd h
row_of_Among user (u ∷ us) (inl e) =
    rw
      (
        ap (λ x. same_text x.id user.id) (sym e),
        ap (λ x. same_text x.username user.username) (sym e),
        ap (λ x. same_role x.role user.role) (sym e),
        same_text_refl user.id,
        same_text_refl user.username,
        same_role_refl user.role,
      )
      refl
row_of_Among user (u ∷ us) (inr h) = ground (arith, row_of_Among user us h)

-- Of two administrators none is the last.
last-two :
    (users : List UserAccount) (user : UserAccount)
    → admin_count users ≡ 2
    → is_last_admin users user ≡ false
unfolding is_last_admin
last-two users user e = rw e (neither (is_admin user.role))
  where
    neither : (b : Bool) → (b && false) ≡ false
    neither true = refl
    neither false = refl

not_refused_among :
    (accounts users : List UserAccount) (user : UserAccount)
    → admin_count accounts ≡ 2
    → Among user users
    → refuses accounts (find? (λ other. same_text other.id user.id) users) ≡ false
not_refused_among accounts [] user e h = absurd h
not_refused_among accounts (u ∷ us) user e (inl k) =
    rw (ap (λ x. same_text x.id user.id) (sym k), same_text_refl user.id) (last-two accounts u e)
not_refused_among accounts (u ∷ us) user e (inr k) = elim (Bool-cases (same_text u.id user.id)) [
  | inl f ↦ rw f (last-two accounts u e)
  | inr f ↦ rw f (not_refused_among accounts us user e k)
]

not_refused :
    (accounts : List UserAccount) (user : UserAccount)
    → admin_count accounts ≡ 2
    → Among user accounts
    → is_refused accounts (deleted user) ≡ false
unfolding is_refused
not_refused accounts user e h = not_refused_among accounts accounts user e h

-- The deletions of two rows are confirmed, the server looks at both, and then carries them out.
abbrev pub both_deleted : UserAccount → UserAccount → List Event
both_deleted a b =
    confirm_delete a
    ∷ confirm_delete b
    ∷ checked (deleted a)
    ∷ checked (deleted b)
    ∷ written (deleted a)
    ∷ written (deleted b)
    ∷ []

module _ (accounts : List UserAccount) (a b : UserAccount) (own : HaveOwnIds accounts)
    (here : Among a accounts) (there : Among b accounts) (first : is_admin a.role ≡ true)
    (second : is_admin b.role ≡ true) (apart : same_text a.id b.id ≡ false)
    (two : admin_count accounts ≡ 2) where
  left_after_both : admin_count (after (after accounts (deleted a)) (deleted b)) ≡ 0
  unfolding admin_count after
  left_after_both =
      let stays : Among b (after accounts (deleted a)) =
        Among-keep (λ other. not (same_text other.id a.id)) b accounts there
          (ap not (differ_sym a.id b.id apart)) in
      let one = count-deleted a accounts own here in
      let none_left =
        count-deleted b (after accounts (deleted a)) (own-deleted a accounts own) stays in
      let all : admins accounts ≡ 2 = sym (length-keep (λ u. is_admin u.role) accounts) ∙ two in
      length-keep (λ u. is_admin u.role) (after (after accounts (deleted a)) (deleted b))
      ∙ counted (rw first at one) (rw second at none_left) all
    where
      counted : {n m k : ℕ} → m + 1 ≡ n → k + 1 ≡ m → n ≡ 2 → k ≡ 0
      counted p q r = omega (arith, p, q, r)

  both_possible : can_all_happen (loaded_site accounts) (both_deleted a b) ≡ true
  unfolding can_all_happen loaded_site can_happen handle ended without_request same_request
  both_possible =
      rw
        (
          row_of_Among a accounts here,
          row_of_Among b accounts there,
          last-two accounts a two,
          last-two accounts b two,
          apart,
          differ_sym a.id b.id apart,
          same_text_refl a.id,
          not_refused_among accounts accounts a two here,
          not_refused_among accounts accounts b two there,
        )
        (rw (same_text_refl b.id, same_text_refl a.id, same_text_refl b.id) refl)

  both_carried_out :
      (handle_all (loaded_site accounts) (both_deleted a b)).accounts
      ≡ after (after accounts (deleted a)) (deleted b)
  unfolding handle_all loaded_site handle ended without_request same_request
  both_carried_out = rw (not_refused accounts a two here, not_refused accounts b two there) refl

-- If the page has loaded the accounts, which have IDs of their own, and exactly two of them are
-- administrators, the operator can confirm the deletion of the one and, while that request is under way,
-- of the other; the server can look at both before it carries out either, and refuses none; and when it
-- has carried them out no administrator is left.
pub admin_count-both_deleted :
    (accounts : List UserAccount) (a b : UserAccount)
    → HaveOwnIds accounts
    → Among a accounts
    → Among b accounts
    → is_admin a.role ≡ true
    → is_admin b.role ≡ true
    → same_text a.id b.id ≡ false
    → admin_count accounts ≡ 2
    → (can_all_happen (loaded_site accounts) (both_deleted a b) ≡ true)
      × (admin_count (handle_all (loaded_site accounts) (both_deleted a b)).accounts ≡ 0)
admin_count-both_deleted accounts a b own here there first second apart two = (
  both_possible accounts a b own here there first second apart two,
  ap admin_count (both_carried_out accounts a b own here there first second apart two)
      ∙ left_after_both accounts a b own here there first second apart two,
)

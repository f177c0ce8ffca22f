-- ===== src/JobWizard/Keys.antt =====
-- `vmKey` of web/src/components/JobWizard.tsx.
use prox_back.Prelude.{
  ℕ, ◌≡◌, refl, ◌↔◌, ◌∙◌, sym, ap, ap₂, true, [], ◌∷◌, ◌++◌, some, all, both_of_and,
}
use prox_back.Js.Text.{Text, print_nat}
use prox_back.Js.Text.Equality.{same_text_iff}
use prox_back.Js.Number.{is_digit}
use prox_back.Api.Inventory.{CachedVm, digits_of}
use prox_back.Api.Inventory.Identity.{all-print_nat, digits_of-print_nat}
use prox_back.JobWizard.Form.{vm_key, key_of, has_key}

colon_in : (s t : Text) → all is_digit (s ++ (b':' ∷ t)) ≡ true → ⊥
unfolding is_digit
colon_in [] t h = cc
colon_in (c ∷ s) t h = colon_in s t (both_of_and (is_digit c) (all is_digit (s ++ (b':' ∷ t))) h).1

-- A text splits in one way at the colon in front of its last digits.
split :
    (s s' t t' : Text)
    → all is_digit t ≡ true
    → all is_digit t' ≡ true
    → s ++ (b':' ∷ t) ≡ s' ++ (b':' ∷ t')
    → (s ≡ s') × (t ≡ t')
split [] [] t t' h h' e = (refl, cc)
split [] (c ∷ s') t t' h h' e =
    let rest : t ≡ s' ++ (b':' ∷ t') = cc in absurd (colon_in s' t' (rw rest at h))
split (c ∷ s) [] t t' h h' e =
    let rest : t' ≡ s ++ (b':' ∷ t) = cc in absurd (colon_in s t (rw rest at h'))
split (c ∷ s) (d ∷ s') t t' h h' e =
    let head : c ≡ d = cc in
    let (front, back) = split s s' t t' h h' cc in (ap₂ (◌∷◌) head front, back)

some_injective : (m n : ℕ) → some m ≡ some n → m ≡ n
some_injective m n e = cc

-- Two VMs have the same key exactly when they are on the same host and have the same VMID.
pub has_key_iff_same :
    (v u : CachedVm) → (has_key v u ≡ true) ↔ ((u.host_id ≡ v.host_id) × (u.vmid ≡ v.vmid))
unfolding has_key vm_key
has_key_iff_same v u = (
  λ h.
      let e = (same_text_iff (key_of u) (key_of v)).0 h in
      let (host, tail) =
        split u.host_id v.host_id (print_nat u.vmid) (print_nat v.vmid) (all-print_nat u.vmid)
          (all-print_nat v.vmid) e in
      (
        host,
        some_injective u.vmid v.vmid
            (sym (digits_of-print_nat u.vmid) ∙ (ap digits_of tail ∙ digits_of-print_nat v.vmid)),
      ),
  λ same. (same_text_iff (key_of u) (key_of v)).1 (ap₂ vm_key same.0 same.1),
)

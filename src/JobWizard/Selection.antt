-- ===== src/JobWizard/Selection.antt =====
-- The lists of web/src/components/JobWizard.tsx: the selected VMs and the paths.
use prox_back.Prelude.{
  ◌≡◌, refl, ◌∙◌, sym, ap, Bool, true, false, not, List, [], ◌∷◌, ◌++◌, ◌||◌, ◌&&◌, ◌↔◌, any, keep,
  Bool-cases, inl, inr, arith, if◌then◌else◌, is_empty,
}
use prox_back.Js.Text.{Text, same_text, trim}
use prox_back.Js.Text.Equality.{same_text_iff}
use prox_back.Js.Text.Trimming.{trim_idem}
use prox_back.Api.Inventory.{CachedVm}
use prox_back.JobWizard.Form.{key_of, has_key, toggle_vm, add_path}

-- Whether the wizard shows a VM as selected.
unfoldable pub is_selected : CachedVm → List CachedVm → Bool
is_selected v selected = any (has_key v) selected

any-append :
    {A : Type 0} → (p : A → Bool) (xs ys : List A) → any p (xs ++ ys) ≡ (any p xs || any p ys)
any-append p [] ys = refl
any-append p (x ∷ xs) ys = ground (arith, any-append p xs ys)

any-keep_none :
    {A : Type 0}
    → (p q : A → Bool) → ((x : A) → p x ≡ true → q x ≡ false)
    → (xs : List A) → any p (keep q xs) ≡ false
any-keep_none p q h [] = refl
any-keep_none p q h (x ∷ xs) = elim (Bool-cases (q x)) [
  | inl e ↦ rw e (ground (arith, h x, any-keep_none p q h xs))
  | inr e ↦ rw e (any-keep_none p q h xs)
]

any-keep_all :
    {A : Type 0}
    → (p q : A → Bool) → ((x : A) → p x ≡ true → q x ≡ true)
    → (xs : List A) → any p (keep q xs) ≡ any p xs
any-keep_all p q h [] = refl
any-keep_all p q h (x ∷ xs) = elim (Bool-cases (q x)) [
  | inl e ↦ rw (e, any-keep_all p q h xs) refl
  | inr e ↦ rw e (ground (arith, h x, any-keep_all p q h xs))
]

has_key_iff : (v u : CachedVm) → (has_key v u ≡ true) ↔ (key_of u ≡ key_of v)
unfolding has_key
has_key_iff v u = same_text_iff (key_of u) (key_of v)

is_selected_of_key :
    (u v : CachedVm) (selected : List CachedVm)
    → key_of u ≡ key_of v
    → is_selected u selected ≡ is_selected v selected
unfolding is_selected has_key
is_selected_of_key u v selected e = ap (λ k. any (λ item. same_text (key_of item) k) selected) e

false_of : {b : Bool} → (b ≡ true → ⊥) → b ≡ false
false_of {b = b} h = elim (Bool-cases b) [ inl e ↦ absurd (h e) | inr e ↦ e ]

-- A click on a VM flips whether it is selected, and leaves every VM with another key as it is.
pub is_selected-toggle_vm :
    (u v : CachedVm) (selected : List CachedVm)
    → is_selected u (toggle_vm v selected)
      ≡ (if has_key v u then not (is_selected v selected) else is_selected u selected)
unfolding is_selected toggle_vm
is_selected-toggle_vm u v selected = elim (Bool-cases (has_key v u)) [
  | inl same ↦
      let e = (has_key_iff v u).0 same in
      rw same (elim (Bool-cases (any (has_key v) selected)) [
        | inl on ↦ rw on (
            any-keep_none (has_key u) (λ item. not (has_key v item))
              (λ item h.
                let k : has_key v item ≡ true =
                  (has_key_iff v item).1 ((has_key_iff u item).0 h ∙ e) in
                rw k)
              selected)
        | inr off ↦
            let k : has_key u v ≡ true = (has_key_iff u v).1 (sym e) in
            rw (off, any-append (has_key u) selected (v ∷ []), k)
              (or_true (any (has_key u) selected))
      ])
  | inr differ ↦
      let k : has_key u v ≡ false = false_of (λ h.
        let h' : has_key v u ≡ true = (has_key_iff v u).1 (sym ((has_key_iff u v).0 h)) in cc) in
      rw differ (elim (Bool-cases (any (has_key v) selected)) [
        | inl on ↦ rw on (
            any-keep_all (has_key u) (λ item. not (has_key v item))
              (λ item h.
                let o : has_key v item ≡ false = false_of (λ g.
                  let h' : has_key v u ≡ true =
                    (has_key_iff v u).1
                      (sym ((has_key_iff u item).0 h) ∙ (has_key_iff v item).0 g) in
                  cc) in
                rw o)
              selected)
        | inr off ↦
            rw (off, any-append (has_key u) selected (v ∷ []), k)
              (or_false (any (has_key u) selected))
      ])
]
  where
    or_true : (b : Bool) → (b || (true || false)) ≡ true
    or_true b = ground arith

    or_false : (b : Bool) → (b || (false || false)) ≡ b
    or_false b = ground arith

-- The paths of an agent job: trimmed, not blank, and no two the same.
abbrev pub ArePaths : List Text → Type 0
ArePaths [] = Unit
ArePaths (p ∷ ps) =
    (trim p ≡ p) × (is_empty p ≡ false) × (any (same_text p) ps ≡ false) × ArePaths ps

snoc-ArePaths :
    (t : Text) (ps : List Text)
    → trim t ≡ t
    → is_empty t ≡ false
    → any (same_text t) ps ≡ false
    → ArePaths ps
    → ArePaths (ps ++ (t ∷ []))
snoc-ArePaths t [] e ne fresh h = (e, ne, refl, tt)
snoc-ArePaths t (p ∷ ps) e ne fresh h =
    let other : same_text p t ≡ false = false_of (λ k.
      let k' : same_text t p ≡ true = (same_text_iff t p).1 (sym ((same_text_iff p t).0 k)) in
      ground arith) in
    (
      h.0,
      h.1,
      rw (any-append (same_text p) ps (t ∷ []), other, h.2) refl,
      snoc-ArePaths t ps e ne (ground arith) h.3,
    )

-- Adding the text of the path field keeps the paths trimmed, not blank and distinct, and a path is
-- there afterwards exactly when it was before or is the trimmed text, which is not blank.
pub add_path-ArePaths :
    (draft p : Text) (ps : List Text)
    → ArePaths ps
    → ArePaths (add_path draft ps)
      × (any (same_text p) (add_path draft ps)
          ≡ (any (same_text p) ps || (not (is_empty (trim draft)) && same_text p (trim draft))))
unfolding add_path
add_path-ArePaths draft p ps h = elim (Bool-cases (is_empty (trim draft))) [
  | inl blank ↦ rw blank (h, or_false _)
  | inr ink ↦ elim (Bool-cases (any (same_text (trim draft)) ps)) [
    | inl there ↦ rw (ink, there) (h, absorbed there)
    | inr fresh ↦
        rw (ink, fresh)
          (
            snoc-ArePaths (trim draft) ps (trim_idem draft) ink fresh h,
            any-append (same_text p) ps (trim draft ∷ []) ∙ or_assoc _ _,
          )
  ]
]
  where
    or_false : (b : Bool) → b ≡ (b || (not true && same_text p (trim draft)))
    or_false b = ground arith

    or_assoc : (b c : Bool) → (b || (c || false)) ≡ (b || (not false && c))
    or_assoc b c = ground arith

    absorbed :
        any (same_text (trim draft)) ps ≡ true
        → any (same_text p) ps ≡ (any (same_text p) ps || (not false && same_text p (trim draft)))
    absorbed there = elim (Bool-cases (same_text p (trim draft))) [
      | inl e ↦
          let same = (same_text_iff p (trim draft)).0 e in
          let k : any (same_text p) ps ≡ true = ap (λ t. any (same_text t) ps) same ∙ there in
          rw k refl
      | inr e ↦ rw e (ground arith)
    ]

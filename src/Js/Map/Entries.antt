-- ===== src/Js/Map/Entries.antt =====
-- What `get` gives after `set`.
use prox_back.Prelude.{
  ℕ, ◌+◌, ◌⊎◌, sum_of, count_of, arith, ◌≡◌, refl, sym, ap, subst, ◌∙◌, true, false, List, [], ◌∷◌,
  none, some, Bool-cases, inl, inr,
}
use prox_back.Js.Text.{Text, same_text}
use prox_back.Js.Text.Equality.{same_text_refl, eq_of_same_text}
use prox_back.Js.Map.{get_entry, set_entry}

module _ {A : Type 0} where
  pub get_entry-set_entry :
      (key : Text) (value : A) (es : List (Text × A))
      → get_entry key (set_entry key value es) ≡ some value
  unfolding get_entry set_entry
  get_entry-set_entry key value [] = rw (same_text_refl key) refl
  get_entry-set_entry key value (e ∷ es) = elim (Bool-cases (same_text e.0 key)) [
    | inl h ↦ rw (h, same_text_refl key) refl
    | inr h ↦ rw (h, h) (get_entry-set_entry key value es)
  ]

  pub get_entry-set_entry_other :
      (key other : Text) (value : A) (es : List (Text × A))
      → same_text key other ≡ false
      → get_entry other (set_entry key value es) ≡ get_entry other es
  unfolding get_entry set_entry
  get_entry-set_entry_other key other value [] d = rw d refl
  get_entry-set_entry_other key other value (e ∷ es) d = elim (Bool-cases (same_text e.0 key)) [
    | inl h ↦ rw (h, d, sym (ap_key h) ∙ d) refl
    | inr h ↦ rw (h, get_entry-set_entry_other key other value es d) refl
  ]
    where
      ap_key : same_text e.0 key ≡ true → same_text key other ≡ same_text e.0 other
      ap_key h = rw (eq_of_same_text e.0 key h) refl

  -- A sum over the values.
  pub sum_of-set_entry_new :
      (f : A → ℕ) (key : Text) (value : A) (es : List (Text × A))
      → get_entry key es ≡ none
      → sum_of (λ e. f e.1) (set_entry key value es) ≡ sum_of (λ e. f e.1) es + f value
  unfolding get_entry set_entry
  sum_of-set_entry_new f key value [] h = omega arith
  sum_of-set_entry_new f key value (e ∷ es) h = elim (Bool-cases (same_text e.0 key)) [
    | inl k ↦ absurd (let found : some e.1 ≡ none = rw k at h in cc)
    | inr k ↦
        let rest = sum_of-set_entry_new f key value es (rw k at h) in rw (k, rest) (omega arith)
  ]

  pub sum_of-set_entry_old :
      (f : A → ℕ) (key : Text) (old value : A) (es : List (Text × A))
      → get_entry key es ≡ some old
      → sum_of (λ e. f e.1) (set_entry key value es) + f old ≡ sum_of (λ e. f e.1) es + f value
  unfolding get_entry set_entry
  sum_of-set_entry_old f key old value [] h = absurd cc
  sum_of-set_entry_old f key old value (e ∷ es) h = elim (Bool-cases (same_text e.0 key)) [
    | inl k ↦
        let same : e.1 ≡ old = (let found : some e.1 ≡ some old = rw k at h in cc) in
        rw (k, sym same) (omega arith)
    | inr k ↦ let rest = sum_of-set_entry_old f key old value es (rw k at h) in rw k (omega arith)
  ]

  -- The number of entries of a key.
  abbrev pub entries_of : Text → List (Text × A) → ℕ
  entries_of key = count_of (λ e. same_text e.0 key)

  -- No key has two entries.
  abbrev pub IsMap : List (Text × A) → Type 0
  IsMap es =
      (key : Text)
      → ((get_entry key es ≡ none) × (entries_of key es ≡ 0))
        ⊎ ((value : A) × (get_entry key es ≡ some value) × (entries_of key es ≡ 1))

  entries_of-set_entry_other :
      (key other : Text) (value : A) (es : List (Text × A))
      → same_text key other ≡ false
      → entries_of other (set_entry key value es) ≡ entries_of other es
  unfolding set_entry
  entries_of-set_entry_other key other value [] d = rw d refl
  entries_of-set_entry_other key other value (e ∷ es) d = elim (Bool-cases (same_text e.0 key)) [
    | inl h ↦
        let e_other : same_text e.0 other ≡ false =
          (ap (λ k. same_text k other) (eq_of_same_text e.0 key h) ∙ d) in
        rw (h, d, e_other) refl
    | inr h ↦ rw (h, entries_of-set_entry_other key other value es d) refl
  ]

  entries_of-set_entry :
      (key : Text) (value : A) (es : List (Text × A))
      → ((get_entry key es ≡ none)
          → entries_of key (set_entry key value es) ≡ entries_of key es + 1)
        × ((old : A)
            → get_entry key es ≡ some old
            → entries_of key (set_entry key value es) ≡ entries_of key es)
  unfolding get_entry set_entry
  entries_of-set_entry key value [] =
      (λ h. rw (same_text_refl key) (omega arith), λ old h. absurd cc)
  entries_of-set_entry key value (e ∷ es) =
      let (new, old) = entries_of-set_entry key value es in
      elim (Bool-cases (same_text e.0 key)) [
        | inl k ↦ rw (k, same_text_refl key) ((λ h. absurd cc), λ old h. refl)
        | inr k ↦
            rw (k, k) ((λ h. let n = new h in omega arith), λ v h. let n = old v h in omega arith)
      ]

  pub set_entry-IsMap :
      (key : Text) (value : A) (es : List (Text × A)) → IsMap es → IsMap (set_entry key value es)
  set_entry-IsMap key value es h other = elim (Bool-cases (same_text key other)) [
    | inr d ↦
        rw
          (
            get_entry-set_entry_other key other value es d,
            entries_of-set_entry_other key other value es d,
          )
          (h other)
    | inl same ↦
        subst
          (λ k.
            ((get_entry k (set_entry key value es) ≡ none)
              × (entries_of k (set_entry key value es) ≡ 0))
            ⊎ ((v : A) × (get_entry k (set_entry key value es) ≡ some v)
                × (entries_of k (set_entry key value es) ≡ 1)))
          (eq_of_same_text key other same)
          (inr (
            value,
            get_entry-set_entry key value es,
            once (h key) (entries_of-set_entry key value es),
          ))
  ]
    where
      once :
          ((get_entry key es ≡ none) × (entries_of key es ≡ 0))
            ⊎ ((v : A) × (get_entry key es ≡ some v) × (entries_of key es ≡ 1))
          → ((get_entry key es ≡ none)
              → entries_of key (set_entry key value es) ≡ entries_of key es + 1)
            × ((old : A)
                → get_entry key es ≡ some old
                → entries_of key (set_entry key value es) ≡ entries_of key es)
          → entries_of key (set_entry key value es) ≡ 1
      once (inl (e, n)) (new, old) = new e ∙ ap (λ m. m + 1) n
      once (inr (v, e, n)) (new, old) = old v e ∙ n

  pub nil-IsMap : IsMap []
  unfolding get_entry
  nil-IsMap key = inl (refl, refl)

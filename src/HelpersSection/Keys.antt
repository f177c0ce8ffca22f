-- ===== src/HelpersSection/Keys.antt =====
-- The keys of the helpers in web/src/components/HelpersSection.tsx, a cluster and a node with a colon.
use prox_back.Prelude.{
  ℕ, ◌≡◌, ◌≢◌, refl, sym, ap, Bool, true, false, List, [], ◌∷◌, ◌||◌, any, ◌⊎◌, ◌↔◌, inl, inr, All,
  Bool-cases,
}
use prox_back.Js.Text.{Text, same_text}
use prox_back.Js.Text.Equality.{eq_of_same_text, same_text_refl}
use prox_back.HelpersSection.{Helper, is_helper_unassigned, key_of, host_text, covered_keys}

-- An assigned helper serves that node of that cluster.
abbrev pub IsServed : Text → Text → List Helper → Type 0
IsServed host node [] = ⊥
IsServed host node (h ∷ hs) =
    ((is_helper_unassigned h ≡ false) × ((host_text h.host_id ≡ host) × (h.node ≡ node)))
    ⊎ IsServed host node hs

abbrev pub HasNoColon : Text → Type 0
HasNoColon s = All (λ c. c ≢ 58) s

abbrev first_of : Text → ℕ
first_of [] = 0
first_of (c ∷ s) = c

abbrev after_one : Text → Text
after_one [] = []
after_one (c ∷ s) = s

-- Keys of clusters without a colon are equal only for the same node of the same cluster.
eq_of_keys :
    (a b m n : Text) → HasNoColon a → HasNoColon b → key_of a m ≡ key_of b n → (a ≡ b) × (m ≡ n)
eq_of_keys [] [] m n p q e = (refl, ap after_one e)
eq_of_keys [] (d ∷ b) m n p q e = absurd (q.0 (sym (ap first_of e)))
eq_of_keys (c ∷ a) [] m n p q e = absurd (p.0 (ap first_of e))
eq_of_keys (c ∷ a) (d ∷ b) m n p q e =
    let rest = eq_of_keys a b m n p.1 q.1 (ap after_one e) in
    ((λ i. ap first_of e i ∷ rest.0 i), rest.1)

pub both_of : true ≡ false → ⊥
both_of e = absurd cc

passed_over : {A B C : Type 0} → A ↔ B → A ↔ (((true ≡ false) × C) ⊎ B)
passed_over f = ((λ a. inr (f.0 a)), λ h. elim h [ inl k ↦ absurd (both_of k.0) | inr b ↦ f.1 b ])

counted :
    {B C : Type 0} (x r : Bool)
    → (x ≡ true) ↔ C
    → (r ≡ true) ↔ B
    → ((x || r) ≡ true) ↔ (((false ≡ false) × C) ⊎ B)
counted true r f g = ((λ e. inl (refl, f.0 refl)), (λ h. refl))
counted false r f g =
    ((λ e. inr (g.0 e)), (λ h. elim h [ inl k ↦ absurd (both_of (sym (f.1 k.1))) | inr b ↦ g.1 b ]))

key_iff :
    (host node at n : Text)
    → HasNoColon host
    → HasNoColon at
    → (same_text (key_of host node) (key_of at n) ≡ true) ↔ ((at ≡ host) × (n ≡ node))
key_iff host node at n p q = (
  (λ e.
      let keys =
        eq_of_keys at host n node q p (sym (eq_of_same_text (key_of host node) (key_of at n) e)) in
      keys),
  (λ h. rw (h.0, h.1) (same_text_refl (key_of host node))),
)

-- A key is covered exactly if an assigned helper serves that node of that cluster.
pub IsServed-covered :
    (host node : Text) (helpers : List Helper)
    → HasNoColon host
    → All (λ h. HasNoColon (host_text h.host_id)) helpers
    → (any (same_text (key_of host node)) (covered_keys helpers) ≡ true)
      ↔ IsServed host node helpers
unfolding covered_keys
IsServed-covered host node [] p q = ((λ e. cc), (λ h. absurd h))
IsServed-covered host node (h ∷ hs) p q = elim (Bool-cases (is_helper_unassigned h)) [
  | inl e ↦ rw e (passed_over (IsServed-covered host node hs p q.1))
  | inr e ↦ rw e (
      counted _ _ (key_iff host node (host_text h.host_id) h.node p q.0)
        (IsServed-covered host node hs p q.1))
]

pub not_covered : {S : Type 0} {b : Bool} → (b ≡ true) ↔ S → ¬ S → b ≡ false
not_covered {b = true} f n = absurd (n (f.0 refl))
not_covered {b = false} f n = refl

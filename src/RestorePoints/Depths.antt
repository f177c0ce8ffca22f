-- ===== src/RestorePoints/Depths.antt =====
-- The depths of web/src/pages/RestorePointsPage.tsx and the chains of parents.
use prox_back.Prelude.{
  ℕ, suc, ◌+◌, ◌≡◌, refl, sym, ap, subst, ◌∙◌, ◌⊎◌, List, [], ◌∷◌, none, some, min, Bool-cases, inl,
  inr, Among, arith,
}
use prox_back.Js.Text.{Text, same_text}
use prox_back.Js.Text.Equality.{eq_of_same_text}
use prox_back.Js.Map.{get_entry, set_entry}
use prox_back.Js.Map.Entries.{get_entry-set_entry, get_entry-set_entry_other}
use prox_back.RestorePoints.{Point, by_id, parent_of}

-- The number of parents that follow one another from a point up to one that has none.
pub data HasDepth (points : List (Text × Point)) : Point → ℕ → Type 0 where
  root : (p : Point) → parent_of points p ≡ none → HasDepth points p 0
  child :
      (p parent : Point) (n : ℕ)
      → parent_of points p ≡ some parent
      → HasDepth points parent n
      → HasDepth points p (suc n)

-- What is known is right for each point that its id finds and whose chain ends.
abbrev pub IsSound : List (Text × Point) → List (Text × ℕ) → Type 0
IsSound points depths =
    (p : Point) (n d : ℕ)
    → get_entry p.id points ≡ some p
    → HasDepth points p n
    → get_entry p.id depths ≡ some d
    → d ≡ min 6 n

pub HasDepth-unique :
    (points : List (Text × Point)) (p : Point) (m n : ℕ)
    → HasDepth points p m
    → HasDepth points p n
    → m ≡ n
HasDepth-unique points p _ _ (root _ e) (root _ f) = refl
HasDepth-unique points p _ _ (root _ e) (child _ parent n f h) = absurd (cc)
HasDepth-unique points p _ _ (child _ parent m e h) (root _ f) = absurd (cc)
HasDepth-unique points p _ _ (child _ q m e h) (child _ r n f k) =
    ap suc (HasDepth-unique points q m n h (same_parent k))
  where
    same_parent : HasDepth points r n → HasDepth points q n
    same_parent k = subst (λ s. HasDepth points s n) (cc) k

-- A point is found under its own id.
abbrev pub IsKeyed : List (Text × Point) → Type 0
IsKeyed points = (id : Text) (p : Point) → get_entry id points ≡ some p → p.id ≡ id

set_entry-IsKeyed :
    (p : Point) (points : List (Text × Point)) → IsKeyed points → IsKeyed (set_entry p.id p points)
set_entry-IsKeyed p points h id q e = elim (Bool-cases (same_text p.id id)) [
  | inl same ↦
      let k = eq_of_same_text p.id id same in
      let found : get_entry id (set_entry p.id p points) ≡ some p =
        rw (sym k) (get_entry-set_entry p.id p points) in
      cc
  | inr other ↦ h id q (sym (get_entry-set_entry_other p.id id p points other) ∙ e)
]

pub by_id-IsKeyed :
    (entries : List (Text × Point)) (ps : List Point) → IsKeyed entries → IsKeyed (by_id entries ps)
unfolding by_id
by_id-IsKeyed entries [] h = h
by_id-IsKeyed entries (p ∷ ps) h =
    by_id-IsKeyed (set_entry p.id p entries) ps (set_entry-IsKeyed p entries h)

-- What is found is an entry that was there or a point of the list.
pub by_id-Among :
    (entries : List (Text × Point)) (ps : List Point) (id : Text) (q : Point)
    → get_entry id (by_id entries ps) ≡ some q
    → (get_entry id entries ≡ some q) ⊎ Among q ps
unfolding by_id
by_id-Among entries [] id q e = inl e
by_id-Among entries (p ∷ ps) id q e = place (by_id-Among (set_entry p.id p entries) ps id q e)
  where
    at :
        get_entry id (set_entry p.id p entries) ≡ some q
        → (get_entry id entries ≡ some q) ⊎ Among q (p ∷ ps)
    at f = elim (Bool-cases (same_text p.id id)) [
      | inl same ↦
          let k = eq_of_same_text p.id id same in
          let found : get_entry id (set_entry p.id p entries) ≡ some p =
            rw (sym k) (get_entry-set_entry p.id p entries) in
          inr (inl cc)
      | inr other ↦ inl (sym (get_entry-set_entry_other p.id id p entries other) ∙ f)
    ]

    place :
        (get_entry id (set_entry p.id p entries) ≡ some q) ⊎ Among q ps
        → (get_entry id entries ≡ some q) ⊎ Among q (p ∷ ps)
    place (inl f) = at f
    place (inr k) = inr (inr k)

pub set_entry-IsSound :
    (points : List (Text × Point)) (p : Point) (v : ℕ) (depths : List (Text × ℕ))
    → get_entry p.id points ≡ some p
    → ((n : ℕ) → HasDepth points p n → v ≡ min 6 n)
    → IsSound points depths
    → IsSound points (set_entry p.id v depths)
set_entry-IsSound points p v depths found right sound r n d there h e =
    elim (Bool-cases (same_text p.id r.id)) [
      | inl same ↦
          let k = eq_of_same_text p.id r.id same in
          let stored : get_entry r.id (set_entry p.id v depths) ≡ some v =
            rw (sym k) (get_entry-set_entry p.id v depths) in
          let found_r : get_entry r.id points ≡ some p = rw (sym k) found in
          let is_v : v ≡ d = cc in
          sym is_v ∙ right n (subst (λ s. HasDepth points s n) (the_same found_r) h)
      | inr other ↦
          sound r n d there h (sym (get_entry-set_entry_other p.id r.id v depths other) ∙ e)
    ]
  where
    the_same : get_entry r.id points ≡ some p → r ≡ p
    the_same f = cc

pub depth_of_root :
    (points : List (Text × Point)) (p : Point) (n : ℕ)
    → parent_of points p ≡ none
    → HasDepth points p n
    → 0 ≡ min 6 n
depth_of_root points p _ e (root _ f) = refl
depth_of_root points p _ e (child _ q n f h) = absurd cc

pub depth_of_child :
    (points : List (Text × Point)) (p parent : Point) (n d : ℕ)
    → parent_of points p ≡ some parent
    → ((m : ℕ) → HasDepth points parent m → d ≡ min 6 m)
    → HasDepth points p n
    → min 6 (d + 1) ≡ min 6 n
depth_of_child points p parent _ d e right (root _ f) = absurd cc
depth_of_child points p parent _ d e right (child _ q n f h) =
    let k = right n (same_parent h) in omega arith
  where
    same_parent : HasDepth points q n → HasDepth points parent n
    same_parent k = subst (λ s. HasDepth points s n) (cc) k

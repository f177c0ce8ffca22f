-- ===== src/RestorePoints/Groups.antt =====
-- `groupSources` of web/src/pages/RestorePointsPage.tsx and the points of a workload.
use prox_back.Prelude.{
  ℕ, ◌+◌, ◌≡◌, refl, sym, ap, ◌∙◌, subst, ◌⊎◌, true, false, List, [], ◌∷◌, Option, none, some,
  length, keep, Bool-cases, Option-cases, inl, inr, Among, All, sum_of, arith,
}
use prox_back.Js.Text.{Text, same_text}
use prox_back.Js.Text.Equality.{eq_of_same_text}
use prox_back.Js.Map.{get_entry, set_entry}
use prox_back.Js.Map.Entries.{get_entry-set_entry, get_entry-set_entry_other}
use prox_back.RestorePoints.{
  Point, SourceGroup, source_key, is_later, new_group, add_point, group_point, group_all,
}

-- The points of the workload with that key.
abbrev pub points_of : Text → List Point → List Point
points_of key = keep (λ p. same_text (source_key p) key)

module _ (get_time : Text → Option ℕ) where
  -- What the loop makes of the points of one workload alone.
  unfoldable pub fold_points : Option SourceGroup → List Point → Option SourceGroup
  fold_points g [] = g
  fold_points none (p ∷ ps) = fold_points (some (new_group p)) ps
  fold_points (some g) (p ∷ ps) = fold_points (some (add_point get_time g p)) ps

  -- One round of the loop changes the group of its point and no other.
  get_entry-group_point :
      (key : Text) (groups : List (Text × SourceGroup)) (p : Point)
      → ((same_text (source_key p) key ≡ true)
          → get_entry key (group_point get_time groups p)
            ≡ fold_points (get_entry key groups) (p ∷ []))
        × ((same_text (source_key p) key ≡ false)
            → get_entry key (group_point get_time groups p) ≡ get_entry key groups)
  unfolding group_point fold_points
  get_entry-group_point key groups p = elim (Option-cases (get_entry (source_key p) groups)) [
    | inl e ↦
        rw (e, group_point)
          (
            (λ same.
                let k = eq_of_same_text (source_key p) key same in
                subst
                  (λ t.
                    get_entry t (set_entry (source_key p) (new_group p) groups)
                    ≡ fold_points (get_entry t groups) (p ∷ []))
                  k (rw e (get_entry-set_entry (source_key p) _ groups))),
            get_entry-set_entry_other (source_key p) key _ groups,
          )
    | inr (g, e) ↦
        rw (e, group_point)
          (
            (λ same.
                let k = eq_of_same_text (source_key p) key same in
                subst
                  (λ t.
                    get_entry t (set_entry (source_key p) (add_point get_time g p) groups)
                    ≡ fold_points (get_entry t groups) (p ∷ []))
                  k (rw e (get_entry-set_entry (source_key p) _ groups))),
            get_entry-set_entry_other (source_key p) key _ groups,
          )
  ]

  fold_points-cons :
      (g : Option SourceGroup) (p : Point) (ps : List Point)
      → fold_points g (p ∷ ps) ≡ fold_points (fold_points g (p ∷ [])) ps
  unfolding fold_points
  fold_points-cons none p ps = refl
  fold_points-cons (some g) p ps = refl

  pub get_entry-group_all :
      (key : Text) (groups : List (Text × SourceGroup)) (ps : List Point)
      → get_entry key (group_all get_time groups ps)
        ≡ fold_points (get_entry key groups) (points_of key ps)
  unfolding group_all fold_points
  get_entry-group_all key groups [] = refl
  get_entry-group_all key groups (p ∷ ps) =
      let (here, other) = get_entry-group_point key groups p in
      let rest = get_entry-group_all key (group_point get_time groups p) ps in
      elim (Bool-cases (same_text (source_key p) key)) [
        | inl e ↦ rw e (
            rest
            ∙ ap (λ g. fold_points g (points_of key ps)) (here e)
            ∙ sym (fold_points-cons (get_entry key groups) p (points_of key ps)))
        | inr e ↦ rw e (rest ∙ ap (λ g. fold_points g (points_of key ps)) (other e))
      ]

  -- A later time than one that is late enough is late enough.
  is_later_trans :
      (a b c : Text)
      → is_later get_time b c ≡ true
      → is_later get_time a c ≡ false
      → is_later get_time a b ≡ false
  unfolding is_later
  is_later_trans a b c h k = ground arith

  -- A group after more points of its workload.
  abbrev pub Extends : SourceGroup → List Point → SourceGroup → Type 0
  Extends g ps h =
      (h.key ≡ g.key)
      × (h.count ≡ g.count + length ps)
      × (h.total_bytes ≡ g.total_bytes + sum_of (λ p. p.size_bytes) ps)
      × ((h.latest ≡ g.latest) ⊎ ((p : Point) × Among p ps × (h.latest ≡ p.created_at)))
      × All (λ p. is_later get_time p.created_at h.latest ≡ false) ps
      × ((t : Text) → is_later get_time t g.latest ≡ false → is_later get_time t h.latest ≡ false)

  pub is_later_irrefl : (t : Text) → is_later get_time t t ≡ false
  unfolding is_later
  is_later_irrefl t = ground arith

  add_point-latest :
      (g : SourceGroup) (p : Point)
      → (((add_point get_time g p).latest ≡ g.latest)
          ⊎ ((add_point get_time g p).latest ≡ p.created_at))
        × (is_later get_time p.created_at (add_point get_time g p).latest ≡ false)
        × ((t : Text)
            → is_later get_time t g.latest ≡ false
            → is_later get_time t (add_point get_time g p).latest ≡ false)
  unfolding add_point
  add_point-latest g p = elim (Bool-cases (is_later get_time p.created_at g.latest)) [
    | inl e ↦
        rw e (inr refl, is_later_irrefl p.created_at, λ t. is_later_trans t p.created_at g.latest e)
    | inr e ↦ rw e (inl refl, e, λ t h. h)
  ]

  pub fold_points-Extends :
      (g : SourceGroup) (ps : List Point) (h : SourceGroup)
      → fold_points (some g) ps ≡ some h
      → Extends g ps h
  unfolding fold_points add_point
  fold_points-Extends g [] h e =
      let same : g ≡ h = cc in
      subst (Extends g []) same (refl, omega arith, omega arith, inl refl, tt, λ t k. k)
  fold_points-Extends g (p ∷ ps) h e =
      let (key, count, total, latest, all, kept) =
        fold_points-Extends (add_point get_time g p) ps h e in
      let (from, not_later, still) = add_point-latest g p in
      (
        key,
        omega arith,
        omega arith,
        source from latest,
        (kept p.created_at not_later, all),
        λ t k. kept t (still t k),
      )
    where
      source :
          (((add_point get_time g p).latest ≡ g.latest)
            ⊎ ((add_point get_time g p).latest ≡ p.created_at))
          → ((h.latest ≡ (add_point get_time g p).latest)
              ⊎ ((q : Point) × Among q ps × (h.latest ≡ q.created_at)))
          → (h.latest ≡ g.latest) ⊎ ((q : Point) × Among q (p ∷ ps) × (h.latest ≡ q.created_at))
      source (inl a) (inl b) = inl (b ∙ a)
      source (inr a) (inl b) = inr (p, inl refl, b ∙ a)
      source from (inr (q, there, b)) = inr (q, inr there, b)

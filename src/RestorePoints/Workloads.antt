-- ===== src/RestorePoints/Workloads.antt =====
-- The groups that `groupSources` of web/src/pages/RestorePointsPage.tsx returns.
use prox_back.Prelude.{
  ℕ, ◌+◌, ◌≡◌, refl, ap, ◌∙◌, ◌⊎◌, Bool, true, false, List, [], ◌∷◌, Option, none, some,
  if◌then◌else◌, map, length, Bool-cases, Option-cases, inl, inr, Among, All, sum_of, count_of,
  Among-keep, arith,
}
use prox_back.Js.Text.{Text, same_text}
use prox_back.Js.Text.Equality.{same_text_refl, eq_of_same_text}
use prox_back.Js.Map.{get_entry, set_entry}
use prox_back.Js.Map.Entries.{
  sum_of-set_entry_new, sum_of-set_entry_old, IsMap, entries_of, set_entry-IsMap, nil-IsMap,
}
use prox_back.Js.Order.Kept.{Among-sort_by, sum_of-sort_by}
use prox_back.RestorePoints.{
  Point, SourceGroup, source_key, is_later, new_group, add_point, group_point, group_all,
  group_sources,
}
use prox_back.RestorePoints.Groups.{
  points_of, fold_points, get_entry-group_all, fold_points-Extends, is_later_irrefl,
}

sum_of-map :
    (f : SourceGroup → ℕ) (es : List (Text × SourceGroup))
    → sum_of f (map (λ e. e.1) es) ≡ sum_of (λ e. f e.1) es
sum_of-map f [] = refl
sum_of-map f (e ∷ es) = rw (sum_of-map f es) refl

Among-map :
    (key : Text) (g : SourceGroup) (es : List (Text × SourceGroup))
    → get_entry key es ≡ some g
    → Among g (map (λ e. e.1) es)
unfolding get_entry
Among-map key g [] h = absurd cc
Among-map key g (e ∷ es) h = elim (Bool-cases (same_text e.0 key)) [
  | inl k ↦ inl (let found : some e.1 ≡ some g = rw k at h in cc)
  | inr k ↦ inr (Among-map key g es (rw k at h))
]

-- Each group stands under its own key.
abbrev AreKeyed : List (Text × SourceGroup) → Type 0
AreKeyed = All (λ e. e.1.key ≡ e.0)

AreKeyed-at :
    (key : Text) (g : SourceGroup) (es : List (Text × SourceGroup))
    → AreKeyed es
    → get_entry key es ≡ some g
    → same_text g.key key ≡ true
unfolding get_entry
AreKeyed-at key g [] h k = absurd cc
AreKeyed-at key g (e ∷ es) h k = elim (Bool-cases (same_text e.0 key)) [
  | inl s ↦
      let found : some e.1 ≡ some g = rw s at k in
      let same : g.key ≡ e.0 = (let at : g ≡ e.1 = cc in ap (λ x. x.key) at ∙ h.0) in rw same s
  | inr s ↦ AreKeyed-at key g es h.1 (rw s at k)
]

set_entry-AreKeyed :
    (key : Text) (g : SourceGroup) (es : List (Text × SourceGroup))
    → g.key ≡ key
    → AreKeyed es
    → AreKeyed (set_entry key g es)
unfolding set_entry
set_entry-AreKeyed key g [] k h = (k, tt)
set_entry-AreKeyed key g (e ∷ es) k h = elim (Bool-cases (same_text e.0 key)) [
  | inl s ↦ rw s (k, h.1)
  | inr s ↦ rw s (h.0, set_entry-AreKeyed key g es k h.1)
]

count_of-keys :
    (key : Text) (es : List (Text × SourceGroup))
    → AreKeyed es
    → count_of (λ g. same_text g.key key) (map (λ e. e.1) es) ≡ entries_of key es
count_of-keys key [] h = refl
count_of-keys key (e ∷ es) h = rw (h.0, count_of-keys key es h.1) refl

module _ (get_time : Text → Option ℕ) where
  group_all-totals :
      (groups : List (Text × SourceGroup)) (ps : List Point)
      → (sum_of (λ e. e.1.count) (group_all get_time groups ps)
          ≡ sum_of (λ e. e.1.count) groups + length ps)
        × (sum_of (λ e. e.1.total_bytes) (group_all get_time groups ps)
            ≡ sum_of (λ e. e.1.total_bytes) groups + sum_of (λ p. p.size_bytes) ps)
  unfolding group_all
  group_all-totals groups [] = (omega arith, omega arith)
  group_all-totals groups (p ∷ ps) =
      let (count, bytes) = group_all-totals (group_point get_time groups p) ps in
      let (one, size) = group_point-totals groups p in (omega arith, omega arith)
    where
      group_point-totals :
          (groups : List (Text × SourceGroup)) (p : Point)
          → (sum_of (λ e. e.1.count) (group_point get_time groups p)
              ≡ sum_of (λ e. e.1.count) groups + 1)
            × (sum_of (λ e. e.1.total_bytes) (group_point get_time groups p)
                ≡ sum_of (λ e. e.1.total_bytes) groups + p.size_bytes)
      group_point-totals groups p = elim (Option-cases (get_entry (source_key p) groups)) [
        | inl e ↦
            rw (e, group_point)
              (
                sum_of-set_entry_new (λ g. g.count) (source_key p) (new_group p) groups e,
                sum_of-set_entry_new (λ g. g.total_bytes) (source_key p) (new_group p) groups e,
              )
        | inr (g, e) ↦
            let count =
              sum_of-set_entry_old (λ g. g.count) (source_key p) g (add_point get_time g p) groups
                e in
            let bytes =
              sum_of-set_entry_old (λ g. g.total_bytes) (source_key p) g (add_point get_time g p)
                groups e in
            rw (e, group_point) (omega arith, omega arith)
      ]

  -- No point is lost or counted twice: the counts of the groups add up to the number of points, and
  -- their bytes to the sizes of the points.
  pub group_sources-totals :
      (ps : List Point)
      → (sum_of (λ g. g.count) (group_sources get_time ps) ≡ length ps)
        × (sum_of (λ g. g.total_bytes) (group_sources get_time ps) ≡ sum_of (λ p. p.size_bytes) ps)
  unfolding group_sources
  group_sources-totals ps =
      let groups = group_all get_time [] ps in
      let (counted, sized) = group_all-totals [] ps in
      let count : sum_of (λ e. e.1.count) groups ≡ length ps = omega arith in
      let bytes : sum_of (λ e. e.1.total_bytes) groups ≡ sum_of (λ p. p.size_bytes) ps =
        omega arith in
      let follows : SourceGroup → SourceGroup → Bool = λ a b. is_later get_time b.latest a.latest in
      (
        sum_of-sort_by follows (λ g. g.count) (map (λ e. e.1) groups)
            ∙ sum_of-map (λ g. g.count) groups
            ∙ count,
        sum_of-sort_by follows (λ g. g.total_bytes) (map (λ e. e.1) groups)
            ∙ sum_of-map (λ g. g.total_bytes) groups
            ∙ bytes,
      )

  group_point-keyed :
      (groups : List (Text × SourceGroup)) (p : Point)
      → IsMap groups × AreKeyed groups
      → IsMap (group_point get_time groups p) × AreKeyed (group_point get_time groups p)
  unfolding group_point new_group add_point
  group_point-keyed groups p (map, keyed) = elim (Option-cases (get_entry (source_key p) groups)) [
    | inl e ↦
        rw (e, group_point)
          (
            set_entry-IsMap (source_key p) (new_group p) groups map,
            set_entry-AreKeyed (source_key p) (new_group p) groups refl keyed,
          )
    | inr (g, e) ↦
        rw (e, group_point)
          (
            set_entry-IsMap (source_key p) (add_point get_time g p) groups map,
            set_entry-AreKeyed (source_key p) (add_point get_time g p) groups
                (eq_of_same_text g.key (source_key p) (AreKeyed-at (source_key p) g groups keyed e))
                keyed,
          )
  ]

  group_all-keyed :
      (groups : List (Text × SourceGroup)) (ps : List Point)
      → IsMap groups × AreKeyed groups
      → IsMap (group_all get_time groups ps) × AreKeyed (group_all get_time groups ps)
  unfolding group_all
  group_all-keyed groups [] h = h
  group_all-keyed groups (p ∷ ps) h =
      group_all-keyed (group_point get_time groups p) ps (group_point-keyed groups p h)

  -- What a group says of the points of its workload.
  pub record IsSummary (g : SourceGroup) (ps : List Point) : Type 0 where
    pub counted : g.count ≡ length ps
    pub sized : g.total_bytes ≡ sum_of (λ p. p.size_bytes) ps
    pub dated : (p : Point) × Among p ps × (g.latest ≡ p.created_at)
    pub is_newest : All (λ p. is_later get_time p.created_at g.latest ≡ false) ps

  fold_points-IsSummary :
      (p : Point) (ps : List Point)
      → Among p ps
      → (g : SourceGroup) × (fold_points get_time none ps ≡ some g) × IsSummary g ps
  unfolding fold_points new_group
  fold_points-IsSummary p [] h = absurd h
  fold_points-IsSummary p (q ∷ qs) h =
      let (g, e) = fold_points-some (new_group q) qs in
      let (key, count, total, latest, all, kept) =
        fold_points-Extends get_time (new_group q) qs g e in
      (
        g,
        e,
        record {
          counted = omega arith;
          sized = omega arith;
          dated = source g latest;
          is_newest = (kept q.created_at (is_later_irrefl get_time q.created_at), all);
        },
      )
    where
      fold_points-some :
          (g : SourceGroup) (ps : List Point)
          → (h : SourceGroup) × (fold_points get_time (some g) ps ≡ some h)
      fold_points-some g [] = (g, refl)
      fold_points-some g (p ∷ ps) = fold_points-some (add_point get_time g p) ps

      source :
          (g : SourceGroup)
          → (g.latest ≡ q.created_at) ⊎ ((r : Point) × Among r qs × (g.latest ≡ r.created_at))
          → (r : Point) × Among r (q ∷ qs) × (g.latest ≡ r.created_at)
      source g (inl e) = (q, inl refl, e)
      source g (inr (r, there, e)) = (r, inr there, e)

  -- For each point of the list exactly one group has the key of its workload, and that group counts
  -- the points of the workload, adds up their sizes, and gives as the latest date that of one of
  -- them, none of which is later.
  pub group_sources-IsSummary :
      (ps : List Point) (p : Point)
      → Among p ps
      → (g : SourceGroup) × Among g (group_sources get_time ps)
        × (same_text g.key (source_key p) ≡ true)
        × (count_of (λ h. same_text h.key (source_key p)) (group_sources get_time ps) ≡ 1)
        × IsSummary g (points_of (source_key p) ps)
  unfolding group_sources get_entry
  group_sources-IsSummary ps p h =
      let key = source_key p in
      let groups = group_all get_time [] ps in
      let follows : SourceGroup → SourceGroup → Bool = λ a b. is_later get_time b.latest a.latest in
      let (map_of, keyed) = group_all-keyed [] ps (nil-IsMap, tt) in
      let mine = Among-keep (λ q. same_text (source_key q) key) p ps h (same_text_refl key) in
      let (g, e, summary) = fold_points-IsSummary p (points_of key ps) mine in
      let there : get_entry key groups ≡ some g = get_entry-group_all get_time key [] ps ∙ e in
      (
        g,
        Among-sort_by follows g (map (λ e. e.1) groups) (Among-map key g groups there),
        AreKeyed-at key g groups keyed there,
        sum_of-sort_by follows (λ h. if same_text h.key key then 1 else 0) (map (λ e. e.1) groups)
            ∙ count_of-keys key groups keyed
            ∙ once g there (map_of key),
        summary,
      )
    where
      once :
          (g : SourceGroup)
          → get_entry (source_key p) (group_all get_time [] ps) ≡ some g
          → ((get_entry (source_key p) (group_all get_time [] ps) ≡ none)
              × (entries_of (source_key p) (group_all get_time [] ps) ≡ 0))
            ⊎ ((v : SourceGroup) × (get_entry (source_key p) (group_all get_time [] ps) ≡ some v)
                × (entries_of (source_key p) (group_all get_time [] ps) ≡ 1))
          → entries_of (source_key p) (group_all get_time [] ps) ≡ 1
      once g there (inl (e, n)) = absurd cc
      once g there (inr (v, e, n)) = n

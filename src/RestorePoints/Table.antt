-- ===== src/RestorePoints/Table.antt =====
-- The table of depths that web/src/pages/RestorePointsPage.tsx fills.
use prox_back.Prelude.{
  ℕ, zero, suc, ◌+◌, ◌≤◌, ◌≡◌, sym, ap, ◌∙◌, subst, ◌⊎◌, List, [], ◌∷◌, none, some, min, Bool-cases,
  Option-cases, inl, inr, Among, All, arith,
}
use prox_back.Js.Text.{Text, same_text}
use prox_back.Js.Text.Equality.{eq_of_same_text}
use prox_back.Js.Map.{get_entry, set_entry}
use prox_back.Js.Map.Entries.{get_entry-set_entry, get_entry-set_entry_other}
use prox_back.RestorePoints.{Point, parent_of, depth_of, all_depths}
use prox_back.RestorePoints.Depths.{
  HasDepth, child, IsSound, IsKeyed, set_entry-IsSound, depth_of_root, depth_of_child,
}

-- Where nothing is known of a point, its depth comes with what is known then.
abbrev IsRight : List (Text × Point) → Point → ℕ × List (Text × ℕ) → Type 0
IsRight points p r = IsSound points r.1 × ((n : ℕ) → HasDepth points p n → r.0 ≡ min 6 n)

parent-found :
    (points : List (Text × Point)) (p parent : Point)
    → IsKeyed points
    → parent_of points p ≡ some parent
    → get_entry parent.id points ≡ some parent
unfolding parent_of
parent-found points p parent keyed e = elim (Option-cases p.parent_id) [
  | inl none_there ↦ absurd (let k : none ≡ some parent = rw none_there at e in cc)
  | inr (id, there) ↦
      let found : get_entry id points ≡ some parent = rw there at e in
      ap (λ i. get_entry i points) (keyed id parent found) ∙ found
]

pub depth_of-IsRight :
    (points : List (Text × Point)) (guard : ℕ) (p : Point) (depths : List (Text × ℕ))
    → IsKeyed points
    → get_entry p.id points ≡ some p
    → ((n : ℕ) → HasDepth points p n → n ≤ guard)
    → IsSound points depths
    → IsRight points p (depth_of points guard p depths)
unfolding depth_of
depth_of-IsRight points zero p depths keyed found enough sound =
    elim (Option-cases (get_entry p.id depths)) [
      | inl unknown ↦
          rw (unknown, depth_of) (set_entry-IsSound points p 0 depths found at_root sound, at_root)
      | inr (d, known) ↦ rw (known, depth_of) (sound, λ n h. sound p n d found h known)
    ]
  where
    at_root : (n : ℕ) → HasDepth points p n → 0 ≡ min 6 n
    at_root n h = let k = enough n h in omega arith
depth_of-IsRight points (suc guard) p depths keyed found enough sound =
    elim (Option-cases (get_entry p.id depths)) [
      | inr (d, known) ↦ rw (known, depth_of) (sound, λ n h. sound p n d found h known)
      | inl unknown ↦ elim (Option-cases (parent_of points p)) [
        | inl no_parent ↦
            rw (unknown, no_parent, depth_of)
              (
                set_entry-IsSound points p 0 depths found (λ n. depth_of_root points p n no_parent)
                    sound,
                λ n. depth_of_root points p n no_parent,
              )
        | inr (parent, e) ↦
            let (sound_then, right) =
              depth_of-IsRight points guard parent depths keyed
                (parent-found points p parent keyed e)
                (λ n h. let k = enough (suc n) (child p parent n e h) in omega arith) sound in
            let right_here : (n : ℕ)
                → HasDepth points p n
                → min 6 ((depth_of points guard parent depths).0 + 1) ≡ min 6 n =
              λ n.
                depth_of_child points p parent n (depth_of points guard parent depths).0 e right in
            rw (unknown, e, depth_of)
              (set_entry-IsSound points p _ _ found right_here sound_then, right_here)
      ]
    ]

-- A table that holds a depth for the id, and no depth above six.
abbrev pub Knows : Text → List (Text × ℕ) → Type 0
Knows id depths = (d : ℕ) × (get_entry id depths ≡ some d)

abbrev pub IsLow : List (Text × ℕ) → Type 0
IsLow depths = (id : Text) (d : ℕ) → get_entry id depths ≡ some d → d ≤ 6

set_entry-Knows :
    (id key : Text) (v : ℕ) (depths : List (Text × ℕ))
    → Knows id depths
    → Knows id (set_entry key v depths)
set_entry-Knows id key v depths (d, known) = elim (Bool-cases (same_text key id)) [
  | inl same ↦ (
    v,
    ap (λ i. get_entry i (set_entry key v depths)) (sym (eq_of_same_text key id same))
        ∙ get_entry-set_entry key v depths,
  )
  | inr other ↦ (d, get_entry-set_entry_other key id v depths other ∙ known)
]

set_entry-IsLow :
    (key : Text) (v : ℕ) (depths : List (Text × ℕ))
    → v ≤ 6
    → IsLow depths
    → IsLow (set_entry key v depths)
set_entry-IsLow key v depths le low id d e = elim (Bool-cases (same_text key id)) [
  | inl same ↦
      let k : get_entry id (set_entry key v depths) ≡ some v =
        ap (λ i. get_entry i (set_entry key v depths)) (sym (eq_of_same_text key id same))
        ∙ get_entry-set_entry key v depths in
      let is_v : v ≡ d = cc in subst (λ n. n ≤ 6) is_v le
  | inr other ↦ low id d (sym (get_entry-set_entry_other key id v depths other) ∙ e)
]

-- A call fills in the depth of its point, keeps what is known and stays low.
abbrev IsFilled : Text → List (Text × ℕ) → ℕ × List (Text × ℕ) → Type 0
IsFilled id depths r =
    Knows id r.1 × ((other : Text) → Knows other depths → Knows other r.1) × IsLow r.1 × (r.0 ≤ 6)

set_entry-IsFilled :
    (id : Text) (v : ℕ) (before depths : List (Text × ℕ))
    → v ≤ 6
    → ((other : Text) → Knows other before → Knows other depths)
    → IsLow depths
    → IsFilled id before (v, set_entry id v depths)
set_entry-IsFilled id v before depths le kept low = (
  (v, get_entry-set_entry id v depths),
  (λ other k. set_entry-Knows other id v depths (kept other k)),
  set_entry-IsLow id v depths le low,
  le,
)

depth_of-IsFilled :
    (points : List (Text × Point)) (guard : ℕ) (p : Point) (depths : List (Text × ℕ))
    → IsLow depths
    → IsFilled p.id depths (depth_of points guard p depths)
unfolding depth_of
depth_of-IsFilled points zero p depths low = elim (Option-cases (get_entry p.id depths)) [
  | inl unknown ↦
      rw (unknown, depth_of)
        (set_entry-IsFilled p.id 0 depths depths (omega arith) (λ other k. k) low)
  | inr (d, known) ↦ rw (known, depth_of) ((d, known), (λ other k. k), low, low p.id d known)
]
depth_of-IsFilled points (suc guard) p depths low = elim (Option-cases (get_entry p.id depths)) [
  | inr (d, known) ↦ rw (known, depth_of) ((d, known), (λ other k. k), low, low p.id d known)
  | inl unknown ↦ elim (Option-cases (parent_of points p)) [
    | inl no_parent ↦
        rw (unknown, no_parent, depth_of)
          (set_entry-IsFilled p.id 0 depths depths (omega arith) (λ other k. k) low)
    | inr (parent, e) ↦
        let (there, kept, low_then, le) = depth_of-IsFilled points guard parent depths low in
        rw (unknown, e, depth_of) (set_entry-IsFilled p.id _ depths _ (omega arith) kept low_then)
  ]
]

pub all_depths-Knows :
    (points : List (Text × Point)) (guard : ℕ) (ps : List Point) (depths : List (Text × ℕ))
    (p : Point)
    → IsLow depths
    → Among p ps ⊎ Knows p.id depths
    → Knows p.id (all_depths points guard ps depths) × IsLow (all_depths points guard ps depths)
unfolding all_depths
all_depths-Knows points guard [] depths p low (inl h) = absurd h
all_depths-Knows points guard [] depths p low (inr h) = (h, low)
all_depths-Knows points guard (q ∷ qs) depths p low h =
    let (there, kept, low_then, le) = depth_of-IsFilled points guard q depths low in
    all_depths-Knows points guard qs (depth_of points guard q depths).1 p low_then
      (next there kept h)
  where
    next :
        Knows q.id (depth_of points guard q depths).1
        → ((other : Text) → Knows other depths → Knows other (depth_of points guard q depths).1)
        → Among p (q ∷ qs) ⊎ Knows p.id depths
        → Among p qs ⊎ Knows p.id (depth_of points guard q depths).1
    next there kept (inl (inl e)) =
        inr (subst (λ s. Knows s.id (depth_of points guard q depths).1) (sym e) there)
    next there kept (inl (inr h)) = inl h
    next there kept (inr k) = inr (kept p.id k)

pub all_depths-IsSound :
    (points : List (Text × Point)) (guard : ℕ) (ps : List Point) (depths : List (Text × ℕ))
    → IsKeyed points
    → All (λ p. get_entry p.id points ≡ some p) ps
    → ((p : Point) (n : ℕ) → get_entry p.id points ≡ some p → HasDepth points p n → n ≤ guard)
    → IsSound points depths
    → IsSound points (all_depths points guard ps depths)
unfolding all_depths
all_depths-IsSound points guard [] depths keyed found enough sound = sound
all_depths-IsSound points guard (q ∷ qs) depths keyed found enough sound =
    all_depths-IsSound points guard qs (depth_of points guard q depths).1 keyed found.1 enough
      (depth_of-IsRight points guard q depths keyed found.0 (λ n h. enough q n found.0 h) sound).0

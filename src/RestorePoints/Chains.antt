-- ===== src/RestorePoints/Chains.antt =====
-- `chainDepths` of web/src/pages/RestorePointsPage.tsx on the whole list.
use prox_back.Prelude.{
  ℕ, zero, suc, ◌≤◌, ◌<◌, ◌≡◌, ◌≢◌, refl, sym, ap, ◌∙◌, subst, ◌⊎◌, List, [], ◌∷◌, Option, none,
  some, min, length, inl, inr, Among, All, All_of_Among, arith, dec_lt,
}
use prox_back.Js.Text.{Text}
use prox_back.Js.Map.{get_entry}
use prox_back.RestorePoints.{Point, by_id, parent_of, chain_depths}
use prox_back.RestorePoints.Depths.{
  HasDepth, root, child, HasDepth-unique, IsKeyed, IsSound, by_id-IsKeyed, by_id-Among,
}
use prox_back.RestorePoints.Table.{IsLow, all_depths-Knows, all_depths-IsSound}

-- A list without one of its members.
drop_member : (p : Point) (ps : List Point) → Among p ps → List Point
drop_member p [] h = []
drop_member p (q ∷ qs) (inl e) = qs
drop_member p (q ∷ qs) (inr h) = q ∷ drop_member p qs h

length-drop_member :
    (p : Point) (ps : List Point) (h : Among p ps) → suc (length (drop_member p ps h)) ≡ length ps
unfolding drop_member
length-drop_member p [] h = absurd h
length-drop_member p (q ∷ qs) (inl e) = refl
length-drop_member p (q ∷ qs) (inr h) = ap suc (length-drop_member p qs h)

Among-drop_member :
    (p r : Point) (ps : List Point) (h : Among p ps)
    → r ≢ p
    → Among r ps
    → Among r (drop_member p ps h)
unfolding drop_member
Among-drop_member p r [] h ne k = absurd h
Among-drop_member p r (q ∷ qs) (inl e) ne (inl f) = absurd (ne (f ∙ sym e))
Among-drop_member p r (q ∷ qs) (inl e) ne (inr k) = k
Among-drop_member p r (q ∷ qs) (inr h) ne (inl f) = inl f
Among-drop_member p r (q ∷ qs) (inr h) ne (inr k) = inr (Among-drop_member p r qs h ne k)

-- A list with a point of each depth below a number is no shorter.
depths-fit :
    (points : List (Text × Point)) (n : ℕ) (ps : List Point)
    → ((k : ℕ) → k < n → (q : Point) × Among q ps × HasDepth points q k)
    → n ≤ length ps
depths-fit points zero ps each = omega arith
depths-fit points (suc n) ps each =
    let (q, there, h) = each n (omega arith) in
    let fits = depths-fit points n (drop_member q ps there) (λ k less.
      let (r, r_there, r_depth) = each k (omega arith) in
      (r, Among-drop_member q r ps there (differ q r n k less h r_depth) r_there, r_depth)) in
    omega (arith, fits, length-drop_member q ps there)
  where
    differ : (q r : Point) (n k : ℕ) → k < n → HasDepth points q n → HasDepth points r k → r ≢ q
    differ q r n k less h j e =
        let same = HasDepth-unique points q k n (subst (λ s. HasDepth points s k) e j) h in
        omega arith

parent-Among :
    (ps : List Point) (p parent : Point) → parent_of (by_id [] ps) p ≡ some parent → Among parent ps
unfolding parent_of get_entry
parent-Among ps p parent e = at p.parent_id e
  where
    listed : (id : Text) → (get_entry id [] ≡ some parent) ⊎ Among parent ps → Among parent ps
    listed id (inl f) = absurd cc
    listed id (inr h) = h

    at :
        (parent_id : Option Text)
        → (elim parent_id [ none ↦ none | some id ↦ get_entry id (by_id [] ps) ]) ≡ some parent
        → Among parent ps
    at none f = absurd cc
    at (some id) f = listed id (by_id-Among [] ps id parent f)

-- Each depth below that of a point is the depth of a point of the list.
below-Among :
    (ps : List Point) (p : Point) (n k : ℕ)
    → Among p ps
    → HasDepth (by_id [] ps) p n
    → k < suc n
    → (q : Point) × Among q ps × HasDepth (by_id [] ps) q k
below-Among ps p _ k h (root _ e) less =
    let is_zero : 0 ≡ k = omega arith in (p, h, subst (HasDepth (by_id [] ps) p) is_zero (root p e))
below-Among ps p _ k h (child _ parent n e d) less = elim (dec_lt k (suc n)) [
  | yes smaller ↦ below-Among ps parent n k (parent-Among ps p parent e) d smaller
  | no larger ↦
      let here : suc n ≡ k = omega arith in
      (p, h, subst (HasDepth (by_id [] ps) p) here (child p parent n e d))
]

HasDepth-le :
    (ps : List Point) (p : Point) (n : ℕ)
    → Among p ps
    → HasDepth (by_id [] ps) p n
    → suc n ≤ length ps
HasDepth-le ps p n h d =
    depths-fit (by_id [] ps) (suc n) ps (λ k less. below-Among ps p n k h d less)

-- Where each id is that of one point, a point of the list whose parents end gets as its depth the
-- number of its parents, up to six; the guard, the length of the list, never cuts that short, and
-- the depths that were kept from other points are the right ones.
pub chain_depths-HasDepth :
    (ps : List Point) (p : Point) (n : ℕ)
    → All (λ q. get_entry q.id (by_id [] ps) ≡ some q) ps
    → Among p ps
    → HasDepth (by_id [] ps) p n
    → get_entry p.id (chain_depths ps) ≡ some (min 6 n)
unfolding chain_depths get_entry
chain_depths-HasDepth ps p n found h d =
    let points = by_id [] ps in
    let ((v, known), low) = all_depths-Knows points (length ps) ps [] p nothing_low (inl h) in
    let right = all_depths-IsSound points (length ps) ps [] keyed found enough nothing_sound in
    known
    ∙ ap some
        (right p n v (All_of_Among (λ q. get_entry q.id points ≡ some q) p ps found h) d known)
  where
    nothing_low : IsLow []
    nothing_low id v e = absurd cc

    nothing_sound : IsSound (by_id [] ps) []
    nothing_sound q m v e k f = absurd cc

    keyed : IsKeyed (by_id [] ps)
    keyed = by_id-IsKeyed [] ps (λ id q e. absurd cc)

    listed : (q : Point) → (get_entry q.id [] ≡ some q) ⊎ Among q ps → Among q ps
    listed q (inl f) = absurd cc
    listed q (inr k) = k

    enough :
        (q : Point) (m : ℕ)
        → get_entry q.id (by_id [] ps) ≡ some q
        → HasDepth (by_id [] ps) q m
        → m ≤ length ps
    enough q m f k =
        let le = HasDepth-le ps q m (listed q (by_id-Among [] ps q.id q f)) k in omega arith

-- Every point of the list gets a depth, at most six, even where parents go round in a circle.
pub chain_depths-bounded :
    (ps : List Point) (p : Point)
    → Among p ps
    → (d : ℕ) × (get_entry p.id (chain_depths ps) ≡ some d) × (d ≤ 6)
unfolding chain_depths get_entry
chain_depths-bounded ps p h =
    let ((d, known), low) =
      all_depths-Knows (by_id [] ps) (length ps) ps [] p nothing_low (inl h) in
    (d, known, low p.id d known)
  where
    nothing_low : IsLow []
    nothing_low id v e = absurd cc

-- ===== src/VirtualMachines/Narrowed.antt =====
-- The chips of tags on web/src/pages/VirtualMachinesPage.tsx.
use prox_back.Prelude.{
  ◌≡◌, refl, sym, ap, ◌∙◌, ◌↔◌, Bool, true, false, not, List, [], ◌∷◌, ◌++◌, ◌&&◌, all, keep, Among,
  Among-keep, member_of_kept, both_of_and, arith,
}
use prox_back.Js.Text.{Text, same_text}
use prox_back.Js.Text.Equality.{same_text_refl}
use prox_back.Api.Tags.{Guest, tags_of, has_text}
use prox_back.VirtualMachines.{Filters, passes, filtered, toggle_tag}

all-snoc :
    (p : Text → Bool) (t : Text) (ts : List Text) → all p (ts ++ (t ∷ [])) ≡ (all p ts && p t)
all-snoc p t [] = ground arith
all-snoc p t (s ∷ ts) = rw (all-snoc p t ts) (ground arith)

keep-fresh :
    (t : Text) (ts : List Text)
    → has_text t ts ≡ false
    → keep (λ s. not (same_text s t)) (ts ++ (t ∷ [])) ≡ ts
keep-fresh t [] h = rw (same_text_refl t) refl
keep-fresh t (s ∷ ts) h = ground (arith, keep-fresh t ts)

has_text-snoc : (t : Text) (ts : List Text) → has_text t (ts ++ (t ∷ [])) ≡ true
has_text-snoc t [] = rw (same_text_refl t) refl
has_text-snoc t (s ∷ ts) = rw (has_text-snoc t ts) (ground arith)

-- A chip that is off, switched on, leaves of the machines that were shown exactly those that carry
-- its tag; and switched off again, it leaves the filters as they were.
pub toggle_tag-narrows :
    (to_lower : Text → Text) (f : Filters) (tag : Text) (guests : List Guest) (guest : Guest)
    → has_text tag f.tag_filters ≡ false
    → (Among guest (filtered to_lower (toggle_tag f tag) guests)
        ↔ (Among guest (filtered to_lower f guests) × (has_text tag (tags_of guest) ≡ true)))
      × (toggle_tag (toggle_tag f tag) tag ≡ f)
unfolding toggle_tag filtered
toggle_tag-narrows to_lower f tag guests guest off = ((fewer guest, more guest), back)
  where
    on : Filters
    on = record f { tag_filters = f.tag_filters ++ (tag ∷ []) }

    is_on : toggle_tag f tag ≡ on
    is_on = rw (off, toggle_tag) refl

    passes-on :
        (guest : Guest)
        → passes to_lower on guest ≡ (passes to_lower f guest && has_text tag (tags_of guest))
    passes-on guest =
        rw (passes, all-snoc (λ t. has_text t (tags_of guest)) tag f.tag_filters) (ground arith)

    fewer :
        (guest : Guest)
        → Among guest (filtered to_lower (toggle_tag f tag) guests)
        → Among guest (filtered to_lower f guests) × (has_text tag (tags_of guest) ≡ true)
    fewer guest h =
        let (there, p) = member_of_kept (passes to_lower on) guest guests (rw is_on at h) in
        let (p_f, p_tag) = both_of_and _ _ (sym (passes-on guest) ∙ p) in
        (Among-keep (passes to_lower f) guest guests there p_f, p_tag)

    more :
        (guest : Guest)
        → Among guest (filtered to_lower f guests) × (has_text tag (tags_of guest) ≡ true)
        → Among guest (filtered to_lower (toggle_tag f tag) guests)
    more guest (h, p_tag) =
        let (there, p_f) = member_of_kept (passes to_lower f) guest guests h in
        rw is_on (
          Among-keep (passes to_lower on) guest guests there
            (passes-on guest ∙ (rw (p_f, p_tag) refl)))

    off_again : toggle_tag on tag ≡ f
    off_again =
        rw (has_text-snoc tag f.tag_filters, keep-fresh tag f.tag_filters off, toggle_tag) refl

    back : toggle_tag (toggle_tag f tag) tag ≡ f
    back = ap (λ g. toggle_tag g tag) is_on ∙ off_again

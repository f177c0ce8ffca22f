-- ===== src/VirtualMachines/Counted.antt =====
-- The counts beside the tags on web/src/pages/VirtualMachinesPage.tsx.
use prox_back.Prelude.{
  ℕ, zero, ◌+◌, ◌≤◌, ◌≡◌, refl, sym, ap, ◌∙◌, Bool, true, false, List, [], ◌∷◌, if◌then◌else◌,
  length, All, sum_of, count_of, length-keep, Bool-cases, inl, inr, arith,
}
use prox_back.Js.Text.{Text, same_text}
use prox_back.Js.Text.Equality.{eq_of_same_text}
use prox_back.Js.Map.{get_entry, set_entry}
use prox_back.Js.Map.Entries.{get_entry-set_entry, get_entry-set_entry_other}
use prox_back.Api.Tags.{Guest, tags_of, has_text, all_tags_of, vms_with_tag}
use prox_back.VirtualMachines.{count_at, zero_tags, count_tags, count_guests, tag_counts}

-- How often a tag stands in a list.
abbrev pub times : Text → List Text → ℕ
times tag = count_of (λ s. same_text s tag)

count_at-set_entry :
    (key tag : Text) (n : ℕ) (counts : List (Text × ℕ))
    → count_at tag (set_entry key n counts) ≡ (if same_text key tag then n else count_at tag counts)
unfolding count_at
count_at-set_entry key tag n counts = elim (Bool-cases (same_text key tag)) [
  | inl e ↦
      let k = eq_of_same_text key tag e in
      rw
        (
          e,
          ap (λ i. get_entry i (set_entry key n counts)) (sym k) ∙ get_entry-set_entry key n counts,
          count_at,
        )
        refl
  | inr e ↦ rw (e, get_entry-set_entry_other key tag n counts e, count_at) refl
]

count_at-zero_tags :
    (tag : Text) (counts : List (Text × ℕ)) (tags : List Text)
    → count_at tag counts ≡ 0
    → count_at tag (zero_tags counts tags) ≡ 0
unfolding zero_tags
count_at-zero_tags tag counts [] h = h
count_at-zero_tags tag counts (t ∷ ts) h =
    count_at-zero_tags tag (set_entry t 0 counts) ts
      (count_at-set_entry t tag 0 counts ∙ (rw h (same (same_text t tag))))
  where
    same : (b : Bool) → (if b then zero else 0) ≡ 0
    same true = refl
    same false = refl

count_at-count_tags :
    (tag : Text) (counts : List (Text × ℕ)) (tags : List Text)
    → count_at tag (count_tags counts tags) ≡ count_at tag counts + times tag tags
unfolding count_tags
count_at-count_tags tag counts [] = omega arith
count_at-count_tags tag counts (t ∷ ts) =
    let rest = count_at-count_tags tag (set_entry t (count_at t counts + 1) counts) ts in
    let here = count_at-set_entry t tag (count_at t counts + 1) counts in
    elim (Bool-cases (same_text t tag)) [
      | inl e ↦
          let k = ap (λ s. count_at s counts) (eq_of_same_text t tag e) in
          let n = rw e at here in rw e (omega arith)
      | inr e ↦ let n = rw e at here in rw e (omega arith)
    ]

count_at-count_guests :
    (tag : Text) (counts : List (Text × ℕ)) (guests : List Guest)
    → count_at tag (count_guests counts guests)
      ≡ count_at tag counts + sum_of (λ g. times tag (tags_of g)) guests
unfolding count_guests
count_at-count_guests tag counts [] = omega arith
count_at-count_guests tag counts (g ∷ gs) =
    let rest = count_at-count_guests tag (count_tags counts (tags_of g)) gs in
    let here = count_at-count_tags tag counts (tags_of g) in omega arith

has_text-times :
    (tag : Text) (tags : List Text)
    → times tag tags ≤ 1
    → times tag tags ≡ (if has_text tag tags then 1 else 0)
has_text-times tag [] h = refl
has_text-times tag (t ∷ ts) h = elim (Bool-cases (same_text t tag)) [
  | inl e ↦ rw e (let k : 1 + times tag ts ≤ 1 = rw e at h in omega arith)
  | inr e ↦ rw e (
      let k : 0 + times tag ts ≤ 1 = rw e at h in
      omega (arith, has_text-times tag ts (omega arith)))
]

sum_of-times :
    (tag : Text) (guests : List Guest)
    → All (λ g. times tag (tags_of g) ≤ 1) guests
    → sum_of (λ g. times tag (tags_of g)) guests ≡ count_of (λ g. has_text tag (tags_of g)) guests
sum_of-times tag [] h = refl
sum_of-times tag (g ∷ gs) h = rw (has_text-times tag (tags_of g) h.0, sum_of-times tag gs h.1) refl

-- Where no machine has a tag twice, the count beside the tag is the number of machines that
-- `vmsWithTag` gives for it, which are those that a job with that filter takes.
pub tag_counts-vms_with_tag :
    (follows : Text → Text → Bool) (tag : Text) (guests : List Guest)
    → All (λ g. times tag (tags_of g) ≤ 1) guests
    → count_at tag (tag_counts follows guests) ≡ length (vms_with_tag guests tag)
unfolding tag_counts vms_with_tag count_at get_entry
tag_counts-vms_with_tag follows tag guests once =
    counted
    ∙ sum_of-times tag guests once
    ∙ sym (length-keep (λ g. has_text tag (tags_of g)) guests)
  where
    counted : count_at tag (tag_counts follows guests) ≡ sum_of (λ g. times tag (tags_of g)) guests
    counted =
        let zeros = count_at-zero_tags tag [] (all_tags_of follows guests) refl in
        let counts = count_at-count_guests tag (zero_tags [] (all_tags_of follows guests)) guests in
        omega arith

-- ===== src/Api/Tags.antt =====
-- Tags and job sources in web/src/api.ts: `tagsOf`, `allTagsOf`, `vmsWithTag`.
use prox_back.Prelude.{Bool, List, [], ◌∷◌, ◌++◌, ℕ, if◌then◌else◌, any, keep}
use prox_back.Js.Text.{Text, same_text}
use prox_back.Js.Value.{Value, str, arr, to_list}
use prox_back.Js.Order.{sort_by}

-- A row of the inventory, `CachedVM`, with its tags as they came.
pub record Guest : Type 0 where
  pub host_id : Text
  pub host_name : Text
  pub vmid : ℕ
  pub name : Text
  pub node : Text
  pub tags : Value

-- The texts among the values that are not empty.
unfoldable pub tag_texts : List Value → List Text
tag_texts [] = []
tag_texts (str (c ∷ s) ∷ vs) = (c ∷ s) ∷ tag_texts vs
tag_texts (_ ∷ vs) = tag_texts vs

-- `tagsOf`.
unfoldable pub tags_of : Guest → List Text
unfolding tag_texts
tags_of guest = tags_in guest.tags
  where
    tags_in : Value → List Text
    tags_in (arr items) = tag_texts (to_list items)
    tags_in _ = []

-- `list.includes(text)`.
abbrev pub has_text : Text → List Text → Bool
has_text t = any (λ s. same_text s t)

-- `set.add(text)`.
unfoldable pub add_text : List Text → Text → List Text
add_text set t = if has_text t set then set else set ++ (t ∷ [])

unfoldable pub add_texts : List Text → List Text → List Text
unfolding add_text
add_texts set [] = set
add_texts set (t ∷ ts) = add_texts (add_text set t) ts

unfoldable pub seen_tags : List Text → List Guest → List Text
unfolding add_texts tags_of
seen_tags set [] = set
seen_tags set (guest ∷ guests) = seen_tags (add_texts set (tags_of guest)) guests

-- `allTagsOf`; `follows` is `a.localeCompare(b) > 0`.
unfoldable pub all_tags_of : (Text → Text → Bool) → List Guest → List Text
unfolding seen_tags sort_by
all_tags_of follows guests = sort_by follows (seen_tags [] guests)

-- `vmsWithTag`.
unfoldable pub vms_with_tag : List Guest → Text → List Guest
unfolding tags_of same_text
vms_with_tag guests tag = keep (λ guest. has_text tag (tags_of guest)) guests

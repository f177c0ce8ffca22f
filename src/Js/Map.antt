-- ===== src/Js/Map.antt =====
-- `Map` from texts: its entries in the order in which their keys came first.
pub mod Entries
use prox_back.Prelude.{Bool, true, false, List, [], ◌∷◌, Option, none, some, if◌then◌else◌}
use prox_back.Js.Text.{Text, same_text}

module _ {ℓ} {A : Type ℓ} where
  -- `map.get(key)`.
  unfoldable pub get_entry : Text → List (Text × A) → Option A
  get_entry key [] = none
  get_entry key (e ∷ es) =
      let rest = get_entry key es in if same_text e.0 key then some e.1 else rest

  -- `map.set(key, value)`: an entry of that key keeps its place.
  unfoldable pub set_entry : Text → A → List (Text × A) → List (Text × A)
  set_entry key value [] = (key, value) ∷ []
  set_entry key value (e ∷ es) =
      let rest = set_entry key value es in if same_text e.0 key then (key, value) ∷ es else e ∷ rest

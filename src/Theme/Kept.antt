-- ===== src/Theme/Kept.antt =====
-- What web/src/theme.tsx shows and keeps.
use prox_back.Prelude.{◌≡◌, refl, ap, sym, ◌∙◌, true, arith}
use prox_back.Js.Text.{same_text}
use prox_back.Theme.{
  ThemeChoice, Browser, choice_of, read_stored, system_theme, Provider, resolve, rendered, load,
  item_of, store, Event, chosen, flipped, reloaded, handle, Reached, loaded, handled,
}

-- The scheme of the system is the one that it has now, and the storage, if it answers, holds the
-- choice.
abbrev IsKept : Provider → Type 0
IsKept p =
    (p.scheme ≡ system_theme p.browser)
    × (p.attribute ≡ resolve p.choice p.scheme)
    × (p.browser.stores ≡ true → read_stored p.browser ≡ p.choice)

choice_of-item_of : (choice : ThemeChoice) → choice_of (item_of choice) ≡ choice
unfolding choice_of item_of same_text
choice_of-item_of ThemeChoice.light = refl
choice_of-item_of ThemeChoice.dark = refl
choice_of-item_of ThemeChoice.system = refl

load-IsKept : (b : Browser) → IsKept (load b)
unfolding load rendered
load-IsKept b = (refl, refl, λ h. refl)

handle-IsKept : (p : Provider) (event : Event) → IsKept p → IsKept (handle p event)
unfolding handle rendered store read_stored system_theme
handle-IsKept p (chosen next) (scheme, attribute, kept) =
    (ground arith, refl, λ h. ground (arith, choice_of-item_of next))
handle-IsKept p (flipped prefers_light) (scheme, attribute, kept) = (ground arith, refl, kept)
handle-IsKept p reloaded h = load-IsKept p.browser

Reached-IsKept : (p : Provider) → Reached p → IsKept p
Reached-IsKept _ (loaded b) = load-IsKept b
Reached-IsKept _ (handled p event r) = handle-IsKept p event (Reached-IsKept p r)

-- Whatever was chosen and whatever the system did, if the storage answers, the root element has the
-- theme that the choice comes to under the scheme that the system has now, and loading the page
-- again changes nothing.
pub reload-id :
    (p : Provider)
    → Reached p
    → p.browser.stores ≡ true
    → (p.attribute ≡ resolve p.choice (system_theme p.browser)) × (handle p reloaded ≡ p)
unfolding handle load rendered
reload-id p r h =
    let (scheme, attribute, kept) = Reached-IsKept p r in
    (attribute ∙ ap (resolve p.choice) scheme, rw (kept h, sym scheme, sym attribute) refl)

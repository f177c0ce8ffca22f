-- ===== src/Theme.antt =====
-- web/src/theme.tsx: the choice of a theme, what is stored of it, and what it comes to.
pub mod Kept
use prox_back.Prelude.{ℕ, ◌≡◌, Bool, true, false, Option, none, some, ◌||◌, if◌then◌else◌}
use prox_back.Js.Text.{Text, codes, same_text}

pub data ThemeChoice : Type 0 where
  light dark system : ThemeChoice

pub data ResolvedTheme : Type 0 where
  light dark : ResolvedTheme

-- The browser: whether `localStorage` answers or throws, the item under `STORAGE_KEY`, and whether
-- there is `matchMedia` and the system prefers a light scheme.
pub record Browser : Type 0 where
  pub stores : Bool
  pub item : Option Text
  pub has_media : Bool
  pub prefers_light : Bool

unfoldable pub choice_of : Option Text → ThemeChoice
unfolding same_text
choice_of none = ThemeChoice.system
choice_of (some raw) =
    if same_text raw (codes "light")
    then ThemeChoice.light
    else if same_text raw (codes "dark")
    then ThemeChoice.dark
    else ThemeChoice.system

-- `readStored`.
unfoldable pub read_stored : Browser → ThemeChoice
unfolding choice_of
read_stored b = if b.stores then choice_of b.item else ThemeChoice.system

-- `systemTheme`.
unfoldable pub system_theme : Browser → ResolvedTheme
system_theme b =
    if b.has_media
    then (if b.prefers_light then ResolvedTheme.light else ResolvedTheme.dark)
    else ResolvedTheme.dark

-- `ThemeProvider` in its browser; `scheme` is its state `system`, `attribute` is `data-theme` of the root element.
pub record Provider : Type 0 where
  pub browser : Browser
  pub choice : ThemeChoice
  pub scheme : ResolvedTheme
  pub attribute : ResolvedTheme

unfoldable pub resolve : ThemeChoice → ResolvedTheme → ResolvedTheme
resolve ThemeChoice.system scheme = scheme
resolve ThemeChoice.light scheme = ResolvedTheme.light
resolve ThemeChoice.dark scheme = ResolvedTheme.dark

-- The provider after a render and the effect that sets the attribute.
unfoldable pub rendered : Browser → ThemeChoice → ResolvedTheme → Provider
unfolding resolve
rendered b choice scheme = record {
  browser = b;
  choice = choice;
  scheme = scheme;
  attribute = resolve choice scheme;
}

-- The page is loaded.
unfoldable pub load : Browser → Provider
unfolding rendered read_stored system_theme
load b = rendered b (read_stored b) (system_theme b)

unfoldable pub item_of : ThemeChoice → Option Text
item_of ThemeChoice.system = none
item_of ThemeChoice.light = some (codes "light")
item_of ThemeChoice.dark = some (codes "dark")

-- `setChoice` on the storage.
unfoldable pub store : Browser → ThemeChoice → Browser
unfolding item_of
store b next = if b.stores then record b { item = item_of next } else b

-- The operator chooses, the system changes its scheme, the page is loaded again.
pub data Event : Type 0 where
  chosen : ThemeChoice → Event
  flipped : Bool → Event
  reloaded : Event

-- `onChange`, if there is a query to listen to.
unfoldable pub handle : Provider → Event → Provider
unfolding rendered store load system_theme
handle p (chosen next) = rendered (store p.browser next) next p.scheme
handle p (flipped prefers_light) =
    let b : Browser = record p.browser { prefers_light = prefers_light } in
    rendered b p.choice (if b.has_media then system_theme b else p.scheme)
handle p reloaded = load p.browser

pub data Reached : Provider → Type 0 where
  loaded : (b : Browser) → Reached (load b)
  handled : (p : Provider) (event : Event) → Reached p → Reached (handle p event)

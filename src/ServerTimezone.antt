-- ===== src/ServerTimezone.antt =====
-- web/src/lib/useServerTimezone.ts: the zone of the server, which the pages read once and share.
pub mod Shared
use prox_back.Prelude.{
  ℕ, ◌+◌, ◌≡◌, Bool, true, false, not, List, [], ◌∷◌, Option, none, some, ◌&&◌, ◌==◌, any, keep,
  map, if◌then◌else◌, is_empty,
}
use prox_back.Js.Text.{Text}

-- A use of the hook: the state `timezone`, and whether it waits for the promise with `active` set.
pub record Page : Type 0 where
  pub id : ℕ
  pub timezone : Option Text
  pub waiting : Bool

-- `cached`, whether `inFlight` is a promise that is not settled, how often `getSettings` was called, and
-- the uses of the hook that are there. A settled promise stays in `inFlight` only beside a zone in
-- `cached`, which is then taken first.
pub record Panel : Type 0 where
  pub cached : Option Text
  pub under_way : Bool
  pub requests : ℕ
  pub pages : List Page

unfoldable pub initial : Panel
initial = record { cached = none; under_way = false; requests = 0; pages = [] }

abbrev pub is_none : Option Text → Bool
is_none none = true
is_none (some zone) = false

-- `loadTimezone`, less what it gives back.
unfoldable pub load_timezone : Panel → Panel
load_timezone p =
    if is_none p.cached && not p.under_way
    then record p { under_way = true; requests = p.requests + 1 }
    else p

-- The effect, and the clean-up of its last run, for the use `id`.
unfoldable pub set_waiting : ℕ → Bool → Page → Page
set_waiting id wait page = if page.id == id then record page { waiting = wait } else page

unfoldable pub run_effect : Panel → ℕ → Bool → Panel
unfolding load_timezone set_waiting
run_effect p id enabled =
    let wait = enabled && is_none p.cached in
    let next = record p { pages = map (set_waiting id wait) p.pages } in
    if wait then load_timezone next else next

-- `setTimezone` of the uses that wait.
unfoldable pub take : Text → Page → Page
take zone page =
    if page.waiting then record page { timezone = some zone; waiting = false } else page

pub data Event : Type 0 where
  mounted : ℕ → Bool → Event
  toggled : ℕ → Bool → Event
  unmounted : ℕ → Event
  answered : Option Text → Event
  failed : Event

abbrev pub or_empty : Option Text → Text
or_empty none = []
or_empty (some zone) = zone

unfoldable pub handle : Panel → Event → Panel
unfolding run_effect take
handle p (mounted id enabled) =
    run_effect
      (record p { pages = record { id = id; timezone = p.cached; waiting = false } ∷ p.pages }) id
      enabled
handle p (toggled id enabled) = run_effect p id enabled
handle p (unmounted id) = record p { pages = keep (λ page. not (page.id == id)) p.pages }
handle p (answered timezone) = record p {
  cached = some (or_empty timezone);
  under_way = false;
  pages = map (take (or_empty timezone)) p.pages;
}
handle p failed = record p { under_way = false; pages = map (take []) p.pages }

-- A use has an identity of its own; a promise is settled once.
unfoldable pub can_happen : Panel → Event → Bool
can_happen p (mounted id enabled) = not (any (λ page. page.id == id) p.pages)
can_happen p (toggled id enabled) = any (λ page. page.id == id) p.pages
can_happen p (unmounted id) = any (λ page. page.id == id) p.pages
can_happen p (answered timezone) = p.under_way
can_happen p failed = p.under_way

pub data Reached : Panel → Type 0 where
  started : Reached initial
  handled :
      (p : Panel) (event : Event) → Reached p → can_happen p event ≡ true → Reached (handle p event)

-- What the hook gives: `timezone || undefined`.
abbrev pub given : Page → Option Text
given page = non_empty page.timezone
  where
    non_empty : Option Text → Option Text
    non_empty none = none
    non_empty (some zone) = if is_empty zone then none else some zone

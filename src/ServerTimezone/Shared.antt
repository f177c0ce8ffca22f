-- ===== src/ServerTimezone/Shared.antt =====
-- What the uses of web/src/lib/useServerTimezone.ts show and wait for.
use prox_back.Prelude.{
  ℕ, ◌≡◌, refl, subst, Bool, true, false, List, [], ◌∷◌, Option, none, some, ◌&&◌, ◌==◌, keep, map,
  if◌then◌else◌, ◌⊎◌, inl, inr, All, Bool-cases, arith,
}
use prox_back.Js.Text.{Text}
use prox_back.ServerTimezone.{
  Page, Panel, initial, is_none, load_timezone, set_waiting, run_effect, take, Event, mounted,
  toggled, unmounted, answered, failed, handle, can_happen, Reached, started, handled, given,
}

clash : false ≡ true → ⊥
clash e = absurd cc

-- A use shows no zone or the one that the server gave, and it waits only while a request is under way.
abbrev pub IsShared : Option Text → Bool → Page → Type 0
IsShared cached under_way page =
    ((given page ≡ none) ⊎ (page.timezone ≡ cached)) × (page.waiting ≡ true → under_way ≡ true)

-- The cache is empty while a request is under way.
abbrev IsSound : Panel → Type 0
IsSound p = All (IsShared p.cached p.under_way) p.pages × (p.under_way ≡ true → p.cached ≡ none)

set_waiting-IsShared :
    (cached : Option Text) (before after : Bool) (id : ℕ) (wait : Bool) (pages : List Page)
    → (wait ≡ true → after ≡ true)
    → (before ≡ true → after ≡ true)
    → All (IsShared cached before) pages
    → All (IsShared cached after) (map (set_waiting id wait) pages)
unfolding set_waiting
set_waiting-IsShared cached before after id wait [] f g h = tt
set_waiting-IsShared cached before after id wait (page ∷ pages) f g h =
    (one, set_waiting-IsShared cached before after id wait pages f g h.1)
  where
    one : IsShared cached after (if page.id == id then record page { waiting = wait } else page)
    one = elim (Bool-cases (page.id == id)) [
      | inl e ↦ rw e (h.0.0, f)
      | inr e ↦ rw e (h.0.0, λ w. g (h.0.1 w))
    ]

-- The answer that comes, of a request that is under way.
answered-IsShared :
    (zone : Text) (pages : List Page)
    → All (IsShared none true) pages
    → All (IsShared (some zone) false) (map (take zone) pages)
unfolding take
answered-IsShared zone [] h = tt
answered-IsShared zone (page ∷ pages) h = (one, answered-IsShared zone pages h.1)
  where
    unknown : (given page ≡ none) ⊎ (page.timezone ≡ none) → given page ≡ none
    unknown (inl e) = e
    unknown (inr e) = rw e refl

    one :
        IsShared
          (some zone)
          false
          (if page.waiting then record page { timezone = some zone; waiting = false } else page)
    one = elim (Bool-cases page.waiting) [
      | inl e ↦ rw e (inr refl, λ w. w)
      | inr e ↦ rw e (inl (unknown h.0.0), λ w. absurd (clash w))
    ]

failed-IsShared :
    (cached : Option Text) (before : Bool) (pages : List Page)
    → All (IsShared cached before) pages
    → All (IsShared cached false) (map (take []) pages)
unfolding take
failed-IsShared cached before [] h = tt
failed-IsShared cached before (page ∷ pages) h = (one, failed-IsShared cached before pages h.1)
  where
    one :
        IsShared cached false
          (if page.waiting then record page { timezone = some []; waiting = false } else page)
    one = elim (Bool-cases page.waiting) [
      | inl e ↦ rw e (inl refl, λ w. w)
      | inr e ↦ rw e (h.0.0, λ w. absurd (clash w))
    ]

none_of : (cached : Option Text) → is_none cached ≡ true → cached ≡ none
none_of none e = refl
none_of (some zone) e = absurd (clash e)

both_true : (a b : Bool) → (a && b) ≡ true → b ≡ true
both_true = ground arith

load_timezone-IsSound :
    (p : Panel)
    → is_none p.cached ≡ true
    → All (IsShared p.cached true) p.pages
    → IsSound (load_timezone p)
unfolding load_timezone
load_timezone-IsSound p e h = elim (Bool-cases p.under_way) [
  | inl u ↦ rw (e, u) (h, λ k. none_of p.cached e)
  | inr u ↦ rw (e, u) (h, λ k. none_of p.cached e)
]

run_effect-IsSound :
    (p : Panel) (id : ℕ) (enabled : Bool) → IsSound p → IsSound (run_effect p id enabled)
unfolding run_effect
run_effect-IsSound p id enabled h = elim (Bool-cases (enabled && is_none p.cached)) [
  | inl e ↦
      let shared =
        set_waiting-IsShared p.cached p.under_way true id true p.pages (λ k. refl) (λ k. refl)
          h.0 in
      rw e (
        load_timezone-IsSound (record p { pages = map (set_waiting id true) p.pages })
          (both_true enabled _ e) shared)
  | inr e ↦ rw e (
    set_waiting-IsShared p.cached p.under_way p.under_way id false p.pages (λ k. absurd (clash k))
        (λ k. k) h.0,
    h.1,
  )
]

keep-IsShared :
    (cached : Option Text) (under_way : Bool) (q : Page → Bool) (pages : List Page)
    → All (IsShared cached under_way) pages
    → All (IsShared cached under_way) (keep q pages)
keep-IsShared cached under_way q [] h = tt
keep-IsShared cached under_way q (page ∷ pages) h = elim (Bool-cases (q page)) [
  | inl e ↦ rw e (h.0, keep-IsShared cached under_way q pages h.1)
  | inr e ↦ rw e (keep-IsShared cached under_way q pages h.1)
]

handle-IsSound :
    (p : Panel) (event : Event) → can_happen p event ≡ true → IsSound p → IsSound (handle p event)
unfolding handle can_happen
handle-IsSound p (mounted id enabled) c h =
    run_effect-IsSound
      (record p { pages = record { id = id; timezone = p.cached; waiting = false } ∷ p.pages }) id
      enabled (((inr refl, λ w. absurd (clash w)), h.0), h.1)
handle-IsSound p (toggled id enabled) c h = run_effect-IsSound p id enabled h
handle-IsSound p (unmounted id) c h = (keep-IsShared p.cached p.under_way _ p.pages h.0, h.1)
handle-IsSound p (answered timezone) c h =
    (answered-IsShared _ p.pages (unasked (h.1 c) c h.0), λ k. absurd (clash k))
  where
    unasked :
        p.cached ≡ none
        → p.under_way ≡ true
        → All (IsShared p.cached p.under_way) p.pages
        → All (IsShared none true) p.pages
    unasked e u k =
        subst (λ b. All (IsShared none b) p.pages) u
          (subst (λ z. All (IsShared z p.under_way) p.pages) e k)
handle-IsSound p failed c h =
    (failed-IsShared p.cached p.under_way p.pages h.0, λ k. absurd (clash k))

Reached-IsSound : {p : Panel} → Reached p → IsSound p
unfolding initial
Reached-IsSound started = (tt, λ k. refl)
Reached-IsSound (handled p event r c) = handle-IsSound p event c (Reached-IsSound r)

quiet_effect :
    (p : Panel) (id : ℕ) (enabled : Bool) (zone : Text)
    → p.cached ≡ some zone
    → (run_effect p id enabled).requests ≡ p.requests
unfolding run_effect load_timezone
quiet_effect p id true zone e = rw e refl
quiet_effect p id false zone e = refl

-- In every reachable state each use of the hook shows no zone or the one that the server gave, a use
-- that waits has a request under way, and once the server has given a zone no event makes a request.
pub Reached-IsShared :
    (p : Panel) (event : Event)
    → Reached p
    → can_happen p event ≡ true
    → All (IsShared p.cached p.under_way) p.pages
      × ((p.cached ≡ none) ⊎ ((handle p event).requests ≡ p.requests))
unfolding handle
Reached-IsShared p event r c = ((Reached-IsSound r).0, quiet p.cached refl event)
  where
    quiet :
        (cached : Option Text)
        → p.cached ≡ cached
        → (event : Event) → (p.cached ≡ none) ⊎ ((handle p event).requests ≡ p.requests)
    quiet none e event = inl e
    quiet (some zone) e (mounted id enabled) = inr (
        quiet_effect
          (record p { pages = record { id = id; timezone = p.cached; waiting = false } ∷ p.pages })
          id enabled zone e)
    quiet (some zone) e (toggled id enabled) = inr (quiet_effect p id enabled zone e)
    quiet (some zone) e (unmounted id) = inr refl
    quiet (some zone) e (answered _) = inr refl
    quiet (some zone) e failed = inr refl

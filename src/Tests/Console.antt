-- ===== src/Tests/Console.antt =====
-- The gate, the navigation and the theme at concrete inputs.
use prox_back.Prelude.{◌≡◌, ◌≢◌, refl, ◌↔◌, inl, true, false, [], ◌∷◌, none, some, ltb}
use prox_back.Js.Text.{codes, same_text}
use prox_back.Js.Value.{undefined, null, obj, end}
use prox_back.Api.Roles.{admin, viewer, capabilities_for}
use prox_back.App.{
  login, ready, given, failed, ready_of, Gate, set_phase, initial, Event, booted, authenticated,
  refreshed, sign_out, signed_out, can_happen, handle, Reached, started, handled, not_found, users,
  page_of, page, guarded, screen, bootstrap, truthy, role_or_viewer,
}
use prox_back.Api.Errors.{Thrown, api}
use prox_back.App.Granted.{IsGranted, screen-IsGranted}
use prox_back.App.SignOut.{signed_out-revived}
use prox_back.Layout.{nav_for}
use prox_back.Layout.Shown.{offers, offers-guarded}
use prox_back.Theme.{
  ThemeChoice, Browser, Provider, resolve, system_theme, load, chosen, flipped, reloaded, rendered,
  store,
}
use prox_back.Theme
use prox_back.Theme.Kept.{reload-id}

-- No session: the server answers that none is there.
abbrev no_session : Thrown
no_session = api (record { status = 401; message = []; url = []; body = undefined })

abbrev booting : Event
booting = booted (given (obj end)) (failed no_session)

abbrev signing_in : Event
signing_in = authenticated null (some admin)

abbrev gate : Gate
gate = handle (handle initial booting) signing_in

gate-Reached : Reached (signing_in ∷ booting ∷ []) gate
unfolding initial can_happen handle set_phase bootstrap truthy
gate-Reached =
    handled (handle initial booting) (booting ∷ []) signing_in
      (handled initial [] booting started refl) refl

gate-shows : screen gate.phase (codes "/users") ≡ page users
unfolding screen page_of guarded capabilities_for handle set_phase role_or_viewer same_text
gate-shows = refl

users_page_example : IsGranted (signing_in ∷ booting ∷ [])
users_page_example =
    screen-IsGranted (signing_in ∷ booting ∷ []) gate (codes "/users") users gate-Reached (inl refl)
      gate-shows

gate-offers : (can_happen gate sign_out ≡ true) × (ltb 0 gate.refreshes ≡ true)
unfolding can_happen handle set_phase initial bootstrap
gate-offers = (refl, refl)

revived_example :
    (can_happen (handle gate sign_out) signed_out ≡ true)
    × ((handle (handle gate sign_out) signed_out).phase ≡ login false)
    × (can_happen (handle (handle gate sign_out) signed_out) (refreshed (given (obj end))) ≡ true)
    × ((handle (handle (handle gate sign_out) signed_out) (refreshed (given (obj end)))).phase
        ≡ ready (ready_of (obj end)))
revived_example = signed_out-revived gate (obj end) gate-offers.0 gate-offers.1

audit-known : page_of (codes "/audit") ≢ not_found
unfolding page_of same_text
audit-known = cc

offers_example :
    (offers (nav_for (capabilities_for viewer)) (codes "/audit") ≡ true)
    ↔ (guarded viewer (page_of (codes "/audit")) ≡ page (page_of (codes "/audit")))
offers_example = offers-guarded viewer (codes "/audit") audit-known

abbrev browser : Browser
browser = record { stores = true; item = none; has_media = true; prefers_light = false }

abbrev provider : Provider
provider = Theme.handle (Theme.handle (load browser) (chosen ThemeChoice.light)) (flipped true)

provider-Reached : Theme.Reached provider
provider-Reached =
    Theme.handled (Theme.handle (load browser) (chosen ThemeChoice.light)) (flipped true)
      (Theme.handled (load browser) (chosen ThemeChoice.light) (Theme.loaded browser))

provider-stores : provider.browser.stores ≡ true
unfolding Theme.handle load rendered store
provider-stores = refl

reload_example :
    (provider.attribute ≡ resolve provider.choice (system_theme provider.browser))
    × (Theme.handle provider reloaded ≡ provider)
reload_example = reload-id provider provider-Reached provider-stores

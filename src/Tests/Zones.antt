-- ===== src/Tests/Zones.antt =====
-- The shared zone of the server at concrete inputs.
use prox_back.Prelude.{◌≡◌, refl, ◌⊎◌, true, none, some, All}
use prox_back.Js.Text.{codes}
use prox_back.ServerTimezone.{
  Panel, initial, mounted, answered, handle, can_happen, Reached, started, handled,
}
use prox_back.ServerTimezone.Shared.{IsShared, Reached-IsShared}

abbrev asked : Panel
asked = handle initial (mounted 1 true)

abbrev told : Panel
told = handle asked (answered (some (codes "Europe/Berlin")))

told-Reached : Reached told
unfolding can_happen handle initial
told-Reached =
    handled asked (answered (some (codes "Europe/Berlin")))
      (handled initial (mounted 1 true) started refl) refl

told-mountable : can_happen told (mounted 2 true) ≡ true
unfolding can_happen handle initial
told-mountable = refl

zone_example :
    All (IsShared told.cached told.under_way) told.pages
    × ((told.cached ≡ none) ⊎ ((handle told (mounted 2 true)).requests ≡ told.requests))
zone_example = Reached-IsShared told (mounted 2 true) told-Reached told-mountable

-- One request served both.
one_request_test : (handle told (mounted 2 true)).requests ≡ 1
unfolding handle initial
one_request_test = refl

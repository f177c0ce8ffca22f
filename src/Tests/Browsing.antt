-- ===== src/Tests/Browsing.antt =====
-- The file browser at concrete inputs.
use prox_back.Prelude.{◌≡◌, refl, true, false, [], ◌∷◌, some}
use prox_back.Js.Text.{codes, same_text}
use prox_back.FileBrowser.{
  Load, Browser, Answer, listed, failed, go, press_retry, fired, answered, open_point, initial,
  can_happen, handle, open_browser, schedule, send, land,
}
use prox_back.FileBrowser.Landing.{Shows, retry-stale}

-- The load of the first folder is under way.
abbrev waiting : Browser
waiting = handle (handle initial open_point) (fired 1)

abbrev first : Load
first = record { signal = some 1; dir = []; search = []; is_sent = true }

abbrev answer : Answer
answer = listed (record { name = codes "etc"; path = codes "etc"; dir = true } ∷ []) false

-- The first folder could not be read.
abbrev broken : Browser
broken = handle waiting (answered first (failed (codes "Cannot reach the ProxBack server.")))

broken-offered : can_happen broken press_retry ≡ true
unfolding can_happen handle open_browser schedule send land
broken-offered = refl

left : same_text broken.path (codes "etc") ≡ false
unfolding handle open_browser schedule send land same_text
left = refl

retry_example :
    (load : Load) × (load.dir ≡ broken.path)
    × (can_happen
          (handle (handle broken press_retry) (go (codes "etc")))
          (answered load (listed [] false))
        ≡ true)
    × ((handle
          (handle (handle broken press_retry) (go (codes "etc")))
          (answered load (listed [] false))).path
        ≡ codes "etc")
    × Shows
        (handle
          (handle (handle broken press_retry) (go (codes "etc")))
          (answered load (listed [] false)))
        (listed [] false)
retry_example = retry-stale broken (codes "etc") [] false broken-offered left

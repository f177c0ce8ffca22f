-- ===== src/Tests/Hooks.antt =====
-- The loading hook at concrete inputs.
use prox_back.Prelude.{◌≡◌, refl, ◌≢◌, ◌⊎◌, true, false, [], none, some, any, ◌==◌}
use prox_back.Js.Text.{Text, codes}
use prox_back.UseAsync.{Hook, begin, given, failed, pass, ended, can_happen, handle, mount, mounted}
use prox_back.UseAsync.Loading.{ended-settles, ended-stale}

abbrev page : Hook
page = mount 1

page-loads : (page.is_mounted ≡ true) × (page.loading ≡ true)
unfolding mount begin
page-loads = (refl, refl)

settles_example :
    (page.flights ≢ [])
    × ((handle page (ended 1 (given (codes "rows")))).loading ≡ false)
    × (((text : Text) × (given (codes "rows") ≡ given text)
          × ((handle page (ended 1 (given (codes "rows")))).shown ≡ some text)
          × ((handle page (ended 1 (given (codes "rows")))).error ≡ none))
        ⊎ ((message : Text) × (given (codes "rows") ≡ failed message)
            × ((handle page (ended 1 (given (codes "rows")))).error ≡ some message)
            × ((handle page (ended 1 (given (codes "rows")))).shown ≡ page.shown)))
settles_example = ended-settles page 1 (given (codes "rows")) (mounted 1) page-loads.0 page-loads.1

page-passes : (can_happen page (pass 2) ≡ true) × (any (λ l. l == page.loader) page.flights ≡ true)
unfolding can_happen mount begin
page-passes = (refl, refl)

stale_example :
    (can_happen
        (handle (handle page (pass 2)) (ended 2 (given (codes "new"))))
        (ended page.loader (given (codes "old")))
      ≡ true)
    × ((handle
          (handle (handle page (pass 2)) (ended 2 (given (codes "new"))))
          (ended page.loader (given (codes "old")))).shown
        ≡ some (codes "old"))
    × ((handle
          (handle (handle page (pass 2)) (ended 2 (given (codes "new"))))
          (ended page.loader (given (codes "old")))).loader
        ≡ 2)
    × ((handle
          (handle (handle page (pass 2)) (ended 2 (given (codes "new"))))
          (ended page.loader (given (codes "old")))).loading
        ≡ false)
stale_example = ended-stale page 2 (codes "new") (codes "old") page-passes.0 page-passes.1

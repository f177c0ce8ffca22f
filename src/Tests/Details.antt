-- ===== src/Tests/Details.antt =====
-- The dialog of a run at concrete inputs.
use prox_back.Prelude.{◌≡◌, refl, true, false, some, ◌⊎◌}
use prox_back.Js.Text.{codes}
use prox_back.Monitor.{running, success, JobRun}
use prox_back.RunDetail.{
  Load, Modal, opened, answered, given, closed, handle, handle_all, can_happen, can_all_happen,
  has_interval, Reached, started, handled,
}
use prox_back.RunDetail.Landing.{IsLeft, IsCurrentRun, reopening, answered-shown, reopening-stale}

abbrev nightly : JobRun
nightly = record { id = codes "1"; status = running }

abbrev first_load : Load
first_load = record { run_id = codes "1"; has_signal = true; is_aborted = false }

abbrev opening : Modal
opening = handle closed (opened (some (codes "1")))

abbrev shown : Modal
shown = handle opening (answered first_load (given nightly))

opening-Reached : Reached opening
unfolding can_happen closed
opening-Reached = handled closed (opened (some (codes "1"))) started refl

answered-shown_example :
    IsLeft opening (handle opening (answered first_load (given nightly)))
    ⊎ IsCurrentRun nightly (handle opening (answered first_load (given nightly)))
unfolding can_happen handle closed
answered-shown_example = answered-shown opening first_load nightly opening-Reached refl refl refl

reopening-stale_example :
    (can_all_happen shown (reopening (codes "1") nightly (codes "2")) ≡ true)
    × (((handle_all shown (reopening (codes "1") nightly (codes "2"))).run_id ≡ some (codes "2"))
        × ((handle_all shown (reopening (codes "1") nightly (codes "2"))).run ≡ some nightly))
unfolding handle closed has_interval
reopening-stale_example = reopening-stale shown (codes "1") nightly (codes "2") refl refl

-- A run that has ended is not polled.
ended_test :
    has_interval
      (handle opening (answered first_load (given (record nightly { status = success }))))
    ≡ false
unfolding handle closed has_interval
ended_test = refl

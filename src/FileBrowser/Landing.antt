-- ===== src/FileBrowser/Landing.antt =====
-- The answers to the loads of web/src/components/FileBrowser.tsx.
use prox_back.Prelude.{ℕ, ◌<◌, ◌≡◌, refl, ◌⊎◌, Bool, true, false, List, [], none, some, All}
use prox_back.Js.Text.{Text, same_text, trim}
use prox_back.Js.Text.Equality.{same_text_refl}
use prox_back.FileBrowser.{
  Entry, Load, Browser, schedule, show, retry, Answer, listed, failed, land, go, press_retry,
  answered, can_happen, handle,
}

-- A load is a retry, of an earlier run, or of what is shown.
abbrev IsTracked : ℕ → Text → Text → Load → Type 0
IsTracked run dir search load =
    (load.signal ≡ none)
    ⊎ ((n : ℕ) × (load.signal ≡ some n)
        × ((n < run) ⊎ ((n ≡ run) × (load.dir ≡ dir) × (load.search ≡ search))))

abbrev AllTracked : Browser → Type 0
AllTracked b = All (IsTracked b.run b.path (trim b.query)) b.loads

-- The browser shows an answer.
abbrev pub Shows : Browser → Answer → Type 0
Shows b (listed entries truncated) =
    (b.entries ≡ entries) × (b.truncated ≡ truncated) × (b.loading ≡ false)
Shows b (failed message) = (b.error ≡ some message) × (b.entries ≡ []) × (b.loading ≡ false)

-- The button of an error can break that: its load is never aborted. If the operator presses it and
-- then goes to another folder, an answer that comes after that is shown there, although the load
-- asked for the folder that was left.
pub retry-stale :
    (b : Browser) (path : Text) (entries : List Entry) (truncated : Bool)
    → can_happen b press_retry ≡ true
    → same_text b.path path ≡ false
    → (load : Load) × (load.dir ≡ b.path)
      × (can_happen
            (handle (handle b press_retry) (go path))
            (answered load (listed entries truncated))
          ≡ true)
      × ((handle
            (handle (handle b press_retry) (go path))
            (answered load (listed entries truncated))).path
          ≡ path)
      × Shows
          (handle
            (handle (handle b press_retry) (go path))
            (answered load (listed entries truncated)))
          (listed entries truncated)
unfolding handle retry show schedule can_happen land
retry-stale b path entries truncated c away =
    let load : Load = record {
      signal = none;
      dir = b.path;
      search = trim b.query;
      is_sent = true;
    } in
    (
      load,
      refl,
      rw (away, same_text_refl b.path, same_text_refl (trim b.query)) refl,
      rw away refl,
      (refl, refl, refl),
    )

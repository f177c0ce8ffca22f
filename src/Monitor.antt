-- ===== src/Monitor.antt =====
-- web/src/pages/MonitorPage.tsx and the samples of web/src/components/RunLive.tsx: the runs in
-- flight, the history below them, and the throughput of each run in flight.
pub mod Shown
pub mod Samples
use prox_back.Prelude.{
  ℕ, zero, suc, ◌+◌, ◌-◌, Bool, true, false, not, List, [], ◌∷◌, ◌++◌, Option, none, some, ◌||◌,
  if◌then◌else◌, ltb, length, any, keep, pos, is_empty, count_of,
}
use prox_back.Js.Text.{Text, same_text}
use prox_back.Js.Number.{Number, whole, finite}
use prox_back.Js.Map.{get_entry, set_entry}

-- `RunStatus`.
pub data RunStatus : Type 0 where
  running success failed canceled : RunStatus

abbrev pub is_running : RunStatus → Bool
is_running running = true
is_running _ = false

-- What the page reads of a `JobRun` and of the `RunDetail` of a run.
pub record JobRun : Type 0 where
  pub id : Text
  pub status : RunStatus

pub record RunDetail : Type 0 where
  pub id : Text
  pub throughput_bps : Number

-- The `live` of the loader: the details that came, in order.
unfoldable pub details_of : (Text → Option RunDetail) → List JobRun → List RunDetail
details_of get_run [] = []
details_of get_run (run ∷ runs) =
    let rest = details_of get_run runs in
    elim (get_run run.id) [ none ↦ rest | some detail ↦ detail ∷ rest ]

-- The loader; `get_run` gives what `getRun` gives of an ID, or nothing where it throws.
unfoldable pub live_of : (Text → Option RunDetail) → List JobRun → List RunDetail
unfolding details_of
live_of get_run runs = details_of get_run (keep (λ run. is_running run.status) runs)

-- `liveIds.has(String(run.id))`.
unfoldable pub has_detail : List RunDetail → JobRun → Bool
unfolding same_text
has_detail live run = any (λ detail. same_text detail.id run.id) live

-- `history`.
unfoldable pub history : List JobRun → List RunDetail → List JobRun
unfolding has_detail
history runs live = keep (λ run. not (has_detail live run)) runs

-- `anyRunning`, which the polling is switched on by.
unfoldable pub any_running : List JobRun → List RunDetail → Bool
any_running runs live = not (is_empty live) || any (λ run. is_running run.status) runs

-- `finishedCount`.
unfoldable pub finished_count : List JobRun → ℕ
finished_count runs = length (keep (λ run. not (is_running run.status)) runs)

abbrev pub sample_cap : ℕ
sample_cap = 60

-- `Number.isFinite(value) ? Math.max(0, value) : 0`.
unfoldable pub sample_of : Number → Number
sample_of (finite (pos n) d) = finite (pos n) d
sample_of _ = whole 0

-- `list.slice(n)`.
unfoldable pub slice_from : {A : Type 0} → ℕ → List A → List A
slice_from zero xs = xs
slice_from (suc n) [] = []
slice_from (suc n) (x ∷ xs) = slice_from n xs

-- What is left of the samples with the new one.
unfoldable pub capped : List Number → List Number
unfolding slice_from
capped next =
    if ltb sample_cap (length next) then slice_from (length next - sample_cap) next else next

-- `appendSample`.
unfoldable pub append_sample : Option (List Number) → Number → List Number
unfolding capped sample_of
append_sample none value = capped (sample_of value ∷ [])
append_sample (some samples) value = capped (samples ++ (sample_of value ∷ []))

-- The loop of the effect: `next` so far, and the samples that there were.
unfoldable pub add_samples :
    List (Text × List Number)
    → List (Text × List Number)
    → List RunDetail
    → List (Text × List Number)
unfolding append_sample get_entry set_entry
add_samples current next [] = next
add_samples current next (detail ∷ live) =
    add_samples current
      (set_entry detail.id (append_sample (get_entry detail.id current) detail.throughput_bps) next)
      live

-- `setSamples` after a poll.
unfoldable pub next_samples : List (Text × List Number) → List RunDetail → List (Text × List Number)
unfolding add_samples
next_samples current live = add_samples current [] live

-- The samples after the polls, the last one first.
unfoldable pub samples_after : List (List RunDetail) → List (Text × List Number)
unfolding next_samples
samples_after [] = []
samples_after (live ∷ polls) = next_samples (samples_after polls) live

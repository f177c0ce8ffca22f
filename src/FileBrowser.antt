-- ===== src/FileBrowser.antt =====
-- web/src/components/FileBrowser.tsx: the folder or search that is shown, the debounced loads and
-- their answers, which can come in any order. The signal of a load is the number of the effect run
-- that scheduled it, which a later run aborts; a retry has a signal that nothing aborts.
pub mod Landing
use prox_back.Prelude.{
  ℕ, ◌+◌, ◌≡◌, Bool, true, false, not, List, [], ◌∷◌, Option, none, some, ◌&&◌, ◌||◌, ◌==◌,
  if◌then◌else◌, is_empty, any, keep, map,
}
use prox_back.Js.Text.{Text, same_text, trim}

-- What the browser reads of a `BackupEntry`.
pub record Entry : Type 0 where
  pub name : Text
  pub path : Text
  pub dir : Bool

-- A call of `load`, scheduled or under way.
pub record Load : Type 0 where
  pub signal : Option ℕ
  pub dir : Text
  pub search : Text
  pub is_sent : Bool

-- The state of the browser for one restore point.
pub record Browser : Type 0 where
  pub path : Text
  pub query : Text
  pub entries : List Entry
  pub truncated : Bool
  pub loading : Bool
  pub error : Option Text
  pub run : ℕ
  pub loads : List Load

abbrev pub is_run : Option ℕ → ℕ → Bool
is_run none run = false
is_run (some n) run = n == run

abbrev pub is_retry : Option ℕ → Bool
is_retry none = true
is_retry (some run) = false

-- `signal.aborted`.
abbrev pub is_aborted : Browser → Load → Bool
is_aborted b load = not (is_retry load.signal || is_run load.signal b.run)

-- The effect: its cleanup clears the timer of the run before, so that a load which is not sent is
-- dropped, and aborts its signal; then a load of what is shown now is scheduled.
unfoldable pub schedule : Browser → Browser
schedule b = record b {
  run = b.run + 1;
  loads =
      record { signal = some (b.run + 1); dir = b.path; search = trim b.query; is_sent = false }
      ∷ keep (λ load. load.is_sent) b.loads;
}

-- `setPath(path)` and `setQuery(query)`, after which the effect runs if either has changed.
unfoldable pub show : Browser → Text → Text → Browser
show b path query =
    if same_text b.path path && same_text b.query query
    then b
    else schedule (record b { path = path; query = query })

-- The effect that resets the browser when a restore point is opened. A load of the new restore point
-- is scheduled in any case; one that the effect schedules for the folder from before is cleared again
-- when the reset is rendered.
unfoldable pub open_browser : Browser → Browser
open_browser old =
    schedule (record old { path = []; query = []; entries = []; truncated = false; error = none })

-- The timer of a load fires: `load`, up to its request.
unfoldable pub send : Browser → ℕ → Browser
send b run = record b {
  loading = true;
  error = none;
  loads =
      map (λ load. if is_run load.signal run then record load { is_sent = true } else load) b.loads;
}

-- The button of an error: a load of what is shown now, under a signal of its own.
unfoldable pub retry : Browser → Browser
retry b = record b {
  loading = true;
  error = none;
  loads = record { signal = none; dir = b.path; search = trim b.query; is_sent = true } ∷ b.loads;
}

-- What `browseBackup` gives.
pub data Answer : Type 0 where
  listed : List Entry → Bool → Answer
  failed : Text → Answer

-- The rest of `load`.
unfoldable pub land : Browser → Load → Answer → Browser
land b load answer = if is_aborted b load then b else elim answer [
  | listed entries truncated ↦ record b {
    entries = entries;
    truncated = truncated;
    loading = false;
  }
  | failed message ↦ record b { error = some message; entries = []; loading = false }
]

-- What happens: a restore point is opened; the operator goes to a folder, types a search, opens an
-- entry or retries; a timer fires; a request is answered.
pub data Event : Type 0 where
  open_point : Event
  go type_query : Text → Event
  open_entry : Entry → Event
  press_retry : Event
  fired : ℕ → Event
  answered : Load → Answer → Event

abbrev pub same_signal : Option ℕ → Option ℕ → Bool
same_signal none none = true
same_signal (some a) (some b) = a == b
same_signal _ _ = false

abbrev pub is_load : Load → Load → Bool
is_load a b =
    (same_signal a.signal b.signal && a.is_sent)
    && (same_text a.dir b.dir && same_text a.search b.search)

abbrev pub is_error : Option Text → Bool
is_error none = false
is_error (some message) = true

-- Whether it can happen: a timer fires for a load that is scheduled and not cleared, an answer comes
-- for a load that was sent, the button is there when an error is shown.
unfoldable pub can_happen : Browser → Event → Bool
can_happen b (fired run) = any (λ load. is_run load.signal run && not load.is_sent) b.loads
can_happen b (answered load answer) = any (λ sent. is_load sent load) b.loads
can_happen b press_retry = is_error b.error
can_happen b _ = true

unfoldable pub handle : Browser → Event → Browser
handle b open_point = open_browser b
handle b (go path) = show b path b.query
handle b (type_query query) = show b b.path query
handle b (open_entry entry) = if entry.dir then show b entry.path [] else b
handle b press_retry = retry b
handle b (fired run) = send b run
handle b (answered load answer) = land b load answer

-- The initial state of the component.
abbrev pub initial : Browser
initial = record {
  path = [];
  query = [];
  entries = [];
  truncated = false;
  loading = false;
  error = none;
  run = 0;
  loads = [];
}

-- The browsers that can come about.
pub data Reached : Browser → Type 0 where
  begun : Reached initial
  handled :
      (b : Browser) (event : Event)
      → Reached b
      → can_happen b event ≡ true
      → Reached (handle b event)

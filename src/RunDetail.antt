-- ===== src/RunDetail.antt =====
-- web/src/components/RunDetailModal.tsx: the run that the dialog is opened for, its loads and polls, and
-- their answers.
pub mod Landing
use prox_back.Prelude.{
  ℕ, ◌≡◌, Bool, true, false, not, List, [], ◌∷◌, Option, none, some, ◌&&◌, ◌||◌, if◌then◌else◌, any,
  map,
}
use prox_back.Js.Text.{Text, same_text}
use prox_back.Monitor.{RunStatus, running, is_running, JobRun}

-- A call of `load`: the run that it asks for, whether it is the one of the effect, which has a signal,
-- and whether that signal is aborted.
pub record Load : Type 0 where
  pub run_id : Text
  pub has_signal : Bool
  pub is_aborted : Bool

pub record Modal : Type 0 where
  pub run_id : Option Text
  pub run : Option JobRun
  pub error : Option Text
  pub loading : Bool
  pub flights : List Load

-- The clean-up of the effect: `controller.abort()`.
unfoldable pub abort : Load → Load
abort load = record load { is_aborted = load.has_signal || load.is_aborted }

-- The effect on `runId`.
unfoldable pub show_run : Modal → Option Text → Modal
unfolding abort
show_run m none = record m {
  run_id = none;
  run = none;
  error = none;
  flights = map abort m.flights;
}
show_run m (some id) = record m {
  run_id = some id;
  loading = true;
  flights = record { run_id = id; has_signal = true; is_aborted = false } ∷ map abort m.flights;
}

-- The dialog before it is opened.
unfoldable pub closed : Modal
closed = record { run_id = none; run = none; error = none; loading = false; flights = [] }

abbrev pub same_flag : Bool → Bool → Bool
same_flag true b = b
same_flag false b = not b

unfoldable pub same_load : Load → Load → Bool
unfolding same_text
same_load a b =
    same_text a.run_id b.run_id
    && (same_flag a.has_signal b.has_signal && same_flag a.is_aborted b.is_aborted)

-- The calls without the first one like that.
unfoldable pub without_load : Load → List Load → List Load
unfolding same_load
without_load load [] = []
without_load load (l ∷ ls) =
    let rest = without_load load ls in if same_load l load then ls else l ∷ rest

-- What `getRun` and `getRunLog` give together, less the lines of the log: the run, or an error.
pub data Answer : Type 0 where
  given : JobRun → Answer
  failed : Text → Answer

-- The rest of `load`; an aborted call throws an `AbortError`, whatever the server gives.
unfoldable pub land : Modal → Load → Answer → Modal
land m load answer = if load.is_aborted then m else elim answer [
  | given run ↦ record m { run = some run; error = none }
  | failed message ↦ record m { error = some message }
]

-- The `finally` of the call of the effect.
unfoldable pub finish : Modal → Load → Modal
finish m load = record m { loading = m.loading && not load.has_signal }

-- The prop `runId` changes, the interval of two seconds ticks, a call ends.
pub data Event : Type 0 where
  opened : Option Text → Event
  ticked : Event
  answered : Load → Answer → Event

-- The interval is there for a run that is shown as running.
unfoldable pub has_interval : Modal → Bool
has_interval m = is_some m.run_id && runs m.run
  where
    is_some : Option Text → Bool
    is_some none = false
    is_some (some id) = true

    runs : Option JobRun → Bool
    runs none = false
    runs (some run) = is_running run.status

-- An effect runs again only where what it depends on has changed.
abbrev pub is_change : Option Text → Option Text → Bool
is_change none none = false
is_change none (some id) = true
is_change (some id) none = true
is_change (some a) (some b) = not (same_text a b)

unfoldable pub can_happen : Modal → Event → Bool
unfolding has_interval same_load
can_happen m (opened run_id) = is_change m.run_id run_id
can_happen m ticked = has_interval m
can_happen m (answered load answer) = any (λ l. same_load l load) m.flights

-- The call of the interval, which has no signal.
unfoldable pub poll : Modal → Modal
poll m = elim m.run_id [
  | none ↦ m
  | some id ↦ record m {
    flights = record { run_id = id; has_signal = false; is_aborted = false } ∷ m.flights;
  }
]

unfoldable pub handle : Modal → Event → Modal
unfolding show_run poll land finish without_load
handle m (opened run_id) = show_run m run_id
handle m ticked = poll m
handle m (answered load answer) =
    finish (land (record m { flights = without_load load m.flights }) load answer) load

-- The sessions of the dialog: what happens, in order, and that each of it can happen.
unfoldable pub handle_all : Modal → List Event → Modal
handle_all m [] = m
handle_all m (event ∷ events) = handle_all (handle m event) events

unfoldable pub can_all_happen : Modal → List Event → Bool
can_all_happen m [] = true
can_all_happen m (event ∷ events) = can_happen m event && can_all_happen (handle m event) events

pub data Reached : Modal → Type 0 where
  started : Reached closed
  handled :
      (m : Modal) (event : Event) → Reached m → can_happen m event ≡ true → Reached (handle m event)

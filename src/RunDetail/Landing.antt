-- ===== src/RunDetail/Landing.antt =====
-- The answers that the dialog of web/src/components/RunDetailModal.tsx takes.
use prox_back.Prelude.{
  ◌≡◌, ◌⊎◌, refl, sym, ap, subst, ◌∙◌, Bool, true, false, not, List, [], ◌∷◌, Option, none, some,
  ◌&&◌, any, map, All, Bool-cases, inl, inr, both_of_and, arith,
}
use prox_back.Js.Text.{Text, same_text}
use prox_back.Js.Text.Equality.{eq_of_same_text, same_text_refl}
use prox_back.Monitor.{JobRun}
use prox_back.RunDetail.{
  Load, Modal, abort, show_run, closed, same_flag, same_load, without_load, Answer, given, land,
  finish, Event, opened, ticked, answered, has_interval, can_happen, poll, handle, Reached, started,
  handled, handle_all, can_all_happen,
}

-- A call of the effect that is not aborted asks for the run that the dialog is opened for.
abbrev IsCurrent : Option Text → Load → Type 0
IsCurrent run_id load = (load.has_signal && not load.is_aborted) ≡ true → run_id ≡ some load.run_id

abort-IsCurrent :
    (run_id : Option Text) (loads : List Load) → All (IsCurrent run_id) (map abort loads)
unfolding abort
abort-IsCurrent run_id [] = tt
abort-IsCurrent run_id (l ∷ ls) = ((λ h. absurd (ground arith)), abort-IsCurrent run_id ls)

without_load-IsCurrent :
    (run_id : Option Text) (load : Load) (loads : List Load)
    → All (IsCurrent run_id) loads
    → All (IsCurrent run_id) (without_load load loads)
unfolding without_load
without_load-IsCurrent run_id load [] h = tt
without_load-IsCurrent run_id load (l ∷ ls) h = elim (Bool-cases (same_load l load)) [
  | inl e ↦ rw e h.1
  | inr e ↦ rw e (h.0, without_load-IsCurrent run_id load ls h.1)
]

landed-run_id : (m : Modal) (load : Load) (answer : Answer) → (land m load answer).run_id ≡ m.run_id
unfolding land
landed-run_id m load answer = ground arith

landed-flights :
    (m : Modal) (load : Load) (answer : Answer) → (land m load answer).flights ≡ m.flights
unfolding land
landed-flights m load answer = ground arith

handle-IsCurrent :
    (m : Modal) (event : Event)
    → All (IsCurrent m.run_id) m.flights
    → All (IsCurrent (handle m event).run_id) (handle m event).flights
unfolding handle show_run finish
handle-IsCurrent m (opened none) h = abort-IsCurrent none m.flights
handle-IsCurrent m (opened (some id)) h = ((λ e. refl), abort-IsCurrent (some id) m.flights)
handle-IsCurrent m ticked h = polled m.run_id refl
  where
    polled :
        (run_id : Option Text)
        → m.run_id ≡ run_id
        → All (IsCurrent (poll m).run_id) (poll m).flights
    polled none e = rw (e, poll) h
    polled (some id) e = rw (e, poll) ((λ k. absurd cc), h)
handle-IsCurrent m (answered load answer) h =
    let rest = record m { flights = without_load load m.flights } in
    rw (landed-run_id rest load answer, landed-flights rest load answer)
      (without_load-IsCurrent m.run_id load m.flights h)

Reached-IsCurrent : {m : Modal} → Reached m → All (IsCurrent m.run_id) m.flights
unfolding closed
Reached-IsCurrent started = tt
Reached-IsCurrent (handled m event r e) = handle-IsCurrent m event (Reached-IsCurrent r)

eq_of_same_flag : (a b : Bool) → same_flag a b ≡ true → a ≡ b
eq_of_same_flag = ground arith

same_flag_refl : (a : Bool) → same_flag a a ≡ true
same_flag_refl true = refl
same_flag_refl false = refl

eq_of_same_load : (a b : Load) → same_load a b ≡ true → a ≡ b
unfolding same_load
eq_of_same_load a b h =
    let ids = both_of_and (same_text a.run_id b.run_id) _ h in
    let flags = both_of_and (same_flag a.has_signal b.has_signal) _ ids.1 in
    let p = eq_of_same_text a.run_id b.run_id ids.0 in
    let q = eq_of_same_flag a.has_signal b.has_signal flags.0 in
    let r = eq_of_same_flag a.is_aborted b.is_aborted flags.1 in
    λ i. record { run_id = p i; has_signal = q i; is_aborted = r i }

-- A call that is under way keeps what holds of them all.
flight-IsCurrent :
    (run_id : Option Text) (load : Load) (loads : List Load)
    → All (IsCurrent run_id) loads
    → any (λ l. same_load l load) loads ≡ true
    → IsCurrent run_id load
flight-IsCurrent run_id load [] h e = absurd cc
flight-IsCurrent run_id load (l ∷ ls) h e = elim (Bool-cases (same_load l load)) [
  | inl s ↦ subst (IsCurrent run_id) (eq_of_same_load l load s) h.0
  | inr s ↦ flight-IsCurrent run_id load ls h.1 (ground (arith, s, e))
]

-- The run, the error and the ID are as they were.
abbrev pub IsLeft : Modal → Modal → Type 0
IsLeft m next = (next.run ≡ m.run) × (next.error ≡ m.error) × (next.run_id ≡ m.run_id)

-- The run is there without an error, and it is the run that the dialog is opened for.
abbrev pub IsCurrentRun : JobRun → Modal → Type 0
IsCurrentRun run next = (next.run ≡ some run) × (next.error ≡ none) × (next.run_id ≡ some run.id)

-- In every reachable state of the dialog the answer to a call of its effect, of the run that the call
-- asked for, either leaves the run, the error and the ID that the dialog is opened for as they are, or
-- puts that run in place with no error, and it is the run that the dialog is opened for. Nothing is
-- said of the flag `loading`.
pub answered-shown :
    (m : Modal) (load : Load) (run : JobRun)
    → Reached m
    → can_happen m (answered load (given run)) ≡ true
    → load.has_signal ≡ true
    → run.id ≡ load.run_id
    → IsLeft m (handle m (answered load (given run)))
      ⊎ IsCurrentRun run (handle m (answered load (given run)))
unfolding handle land finish can_happen
answered-shown m load run r can s same = elim (Bool-cases load.is_aborted) [
  | inl e ↦ inl (rw e (refl, refl, refl))
  | inr e ↦ inr (rw e (refl, refl, current_id e))
]
  where
    current_id : load.is_aborted ≡ false → m.run_id ≡ some run.id
    current_id e =
        flight-IsCurrent m.run_id load m.flights (Reached-IsCurrent r) can (rw (s, e) refl)
        ∙ ap some (sym same)

same_load_refl : (load : Load) → same_load load load ≡ true
unfolding same_load
same_load_refl load =
    rw (same_text_refl load.run_id, same_flag_refl load.has_signal, same_flag_refl load.is_aborted)
      refl

-- The call of the interval for a run.
abbrev pub poll_of : Text → Load
poll_of id = record { run_id = id; has_signal = false; is_aborted = false }

polled-flight :
    (m : Modal) (id : Text)
    → m.run_id ≡ some id
    → any (λ l. same_load l (poll_of id)) (map abort (poll m).flights) ≡ true
unfolding abort poll
polled-flight m id e = rw (e, poll, same_load_refl (poll_of id)) refl

polled-run_id : (m : Modal) (id : Text) → m.run_id ≡ some id → (poll m).run_id ≡ some id
unfolding poll
polled-run_id m id e = rw e refl

-- The interval ticks, the operator closes the dialog, the poll ends, and the operator opens another run.
abbrev pub reopening : Text → JobRun → Text → List Event
reopening id run other =
    ticked ∷ opened none ∷ answered (poll_of id) (given run) ∷ opened (some other) ∷ []

-- If the operator closes the dialog of a running run while a poll of it is under way, the poll gives
-- its answer, and the operator opens another run: all of this can happen, and the dialog of the other
-- run shows what the poll gave.
pub reopening-stale :
    (m : Modal) (id : Text) (run : JobRun) (other : Text)
    → m.run_id ≡ some id
    → has_interval m ≡ true
    → ((can_all_happen m (reopening id run other) ≡ true)
        × (((handle_all m (reopening id run other)).run_id ≡ some other)
            × ((handle_all m (reopening id run other)).run ≡ some run)))
unfolding handle_all can_all_happen can_happen handle show_run poll land finish
reopening-stale m id run other e i =
    (rw (i, polled-run_id m id e, polled-flight m id e) refl, (refl, refl))

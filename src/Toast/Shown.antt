-- ===== src/Toast/Shown.antt =====
-- The toasts that web/src/components/Toast.tsx shows, and how long.
use prox_back.Prelude.{
  ℕ, ◌+◌, ◌<◌, ◌≤◌, ◌≡◌, refl, Bool, true, false, not, List, [], ◌∷◌, ◌++◌, ◌&&◌, ◌||◌, ◌==◌, leb,
  ltb, All, All-append, any, keep, length, length-append, arith, Bool-cases, inl, inr,
  if◌then◌else◌,
}
use prox_back.Js.Text.{Text}
use prox_back.Toast.{
  ToastKind, Toast, Timer, Provider, initial, slice_last, dismiss, lifetime, push, fire, Event,
  pushed, closed, passed, handle, run,
}

-- The ids rise in the order of the list, up to the next one.
abbrev pub Rising : ℕ → List Toast → Type 0
Rising next [] = Unit
Rising next (t ∷ ts) = (t.id < next) × All (λ u. t.id < u.id) ts × Rising next ts

-- A timer that dismisses a toast within eight seconds.
abbrev pub has_timer : ℕ → List Timer → Toast → Bool
has_timer now timers t = any (λ timer. timer.id == t.id && leb timer.due (now + 8000)) timers

pub record IsTidy (p : Provider) : Type 0 where
  pub at_most_five : length p.toasts ≤ 5
  pub ids_rise : Rising p.next_id p.toasts
  pub all_timed : All (λ t. has_timer p.now p.timers t ≡ true) p.toasts

All-map :
    (P Q : Toast → Type 0) → ((t : Toast) → P t → Q t) → (ts : List Toast) → All P ts → All Q ts
All-map P Q f [] h = tt
All-map P Q f (t ∷ ts) h = (f t h.0, All-map P Q f ts h.1)

All-zip : (P Q : Toast → Type 0) (ts : List Toast) → All P ts → All Q ts → All (λ t. P t × Q t) ts
All-zip P Q [] h k = tt
All-zip P Q (t ∷ ts) h k = ((h.0, k.0), All-zip P Q ts h.1 k.1)

All-keep_with :
    (P Q : Toast → Type 0) (q : Toast → Bool)
    → ((t : Toast) → P t → q t ≡ true → Q t)
    → (ts : List Toast) → All P ts
    → All Q (keep q ts)
All-keep_with P Q q f [] h = tt
All-keep_with P Q q f (t ∷ ts) h = elim (Bool-cases (q t)) [
  | inl e ↦ rw e (f t h.0 e, All-keep_with P Q q f ts h.1)
  | inr e ↦ rw e (All-keep_with P Q q f ts h.1)
]

All-keep : (P : Toast → Type 0) (q : Toast → Bool) (ts : List Toast) → All P ts → All P (keep q ts)
All-keep P q = All-keep_with P P q (λ t p e. p)

Rising-keep :
    (next : ℕ) (q : Toast → Bool) (ts : List Toast) → Rising next ts → Rising next (keep q ts)
Rising-keep next q [] h = tt
Rising-keep next q (t ∷ ts) h = elim (Bool-cases (q t)) [
  | inl e ↦ rw e (h.0, All-keep (λ u. t.id < u.id) q ts h.1, Rising-keep next q ts h.2)
  | inr e ↦ rw e (Rising-keep next q ts h.2)
]

length-keep : (q : Toast → Bool) (ts : List Toast) → length (keep q ts) ≤ length ts
length-keep q [] = omega arith
length-keep q (t ∷ ts) = elim (Bool-cases (q t)) [
  | inl e ↦ rw e (omega (arith, length-keep q ts))
  | inr e ↦ rw e (omega (arith, length-keep q ts))
]

All-slice_last : (P : Toast → Type 0) (n : ℕ) (ts : List Toast) → All P ts → All P (slice_last n ts)
unfolding slice_last
All-slice_last P n [] h = tt
All-slice_last P n (t ∷ ts) h = elim (Bool-cases (ltb n (length (t ∷ ts)))) [
  | inl e ↦ rw e (All-slice_last P n ts h.1)
  | inr e ↦ rw e h
]

Rising-slice_last : (next n : ℕ) (ts : List Toast) → Rising next ts → Rising next (slice_last n ts)
unfolding slice_last
Rising-slice_last next n [] h = tt
Rising-slice_last next n (t ∷ ts) h = elim (Bool-cases (ltb n (length (t ∷ ts)))) [
  | inl e ↦ rw e (Rising-slice_last next n ts h.2)
  | inr e ↦ rw e h
]

length-slice_last : (n : ℕ) (ts : List Toast) → length (slice_last n ts) ≤ n
unfolding slice_last
length-slice_last n [] = omega arith
length-slice_last n (t ∷ ts) = elim (Bool-cases (ltb n (length (t ∷ ts)))) [
  | inl e ↦ rw e (length-slice_last n ts)
  | inr e ↦ rw e (ground arith)
]

-- A new toast, whose id is the next one.
Rising-snoc : (t : Toast) (ts : List Toast) → Rising t.id ts → Rising (t.id + 1) (ts ++ (t ∷ []))
Rising-snoc t [] h = (omega arith, tt, tt)
Rising-snoc t (u ∷ us) h = (
  omega (arith, h.0),
  All-append (λ v. u.id < v.id) us (t ∷ []) h.1 (h.0, tt),
  Rising-snoc t us h.2,
)

push-IsTidy :
    (p : Provider) (kind : ToastKind) (title detail : Text) (has_action : Bool)
    → IsTidy p
    → IsTidy (push p kind title detail has_action)
unfolding push
push-IsTidy p kind title detail has_action h = record {
  at_most_five =
      omega (arith, length-append (slice_last 4 p.toasts) (new ∷ []), length-slice_last 4 p.toasts);
  ids_rise =
      Rising-snoc new (slice_last 4 p.toasts) (Rising-slice_last p.next_id 4 p.toasts h.ids_rise);
  all_timed =
      All-append Timed (slice_last 4 p.toasts) (new ∷ [])
        (All-map (λ t. has_timer p.now p.timers t ≡ true) Timed
          (λ t e.
            rw e (
              or_true (p.next_id == t.id && leb (p.now + lifetime kind has_action) (p.now + 8000))))
          (slice_last 4 p.toasts)
          (All-slice_last (λ t. has_timer p.now p.timers t ≡ true) 4 p.toasts h.all_timed))
        (timed, tt);
}
  where
    new : Toast
    new = record {
      id = p.next_id;
      kind = kind;
      title = title;
      detail = detail;
      has_action = has_action;
    }

    timers : List Timer
    timers = record { due = p.now + lifetime kind has_action; id = p.next_id } ∷ p.timers

    Timed : Toast → Type 0
    Timed t = has_timer p.now timers t ≡ true

    timed : Timed new
    timed = ground arith

    or_true : (b : Bool) → (b || true) ≡ true
    or_true b = ground arith

-- A timer of the toast is due.
is_due : ℕ → List Timer → Toast → Bool
is_due now timers t = any (λ timer. timer.id == t.id && leb timer.due now) timers

All-fire :
    (P : Toast → Type 0) (now : ℕ) (timers : List Timer) (ts : List Toast)
    → All P ts
    → All P (fire now timers ts)
unfolding fire dismiss
All-fire P now [] ts h = h
All-fire P now (timer ∷ timers) ts h = elim (Bool-cases (leb timer.due now)) [
  | inl e ↦ rw e (All-keep P _ (fire now timers ts) (All-fire P now timers ts h))
  | inr e ↦ rw e (All-fire P now timers ts h)
]

Rising-fire :
    (next now : ℕ) (timers : List Timer) (ts : List Toast)
    → Rising next ts
    → Rising next (fire now timers ts)
unfolding fire dismiss
Rising-fire next now [] ts h = h
Rising-fire next now (timer ∷ timers) ts h = elim (Bool-cases (leb timer.due now)) [
  | inl e ↦ rw e (Rising-keep next _ (fire now timers ts) (Rising-fire next now timers ts h))
  | inr e ↦ rw e (Rising-fire next now timers ts h)
]

length-fire :
    (now : ℕ) (timers : List Timer) (ts : List Toast) → length (fire now timers ts) ≤ length ts
unfolding fire dismiss
length-fire now [] ts = omega arith
length-fire now (timer ∷ timers) ts = elim (Bool-cases (leb timer.due now)) [
  | inl e ↦ rw e (
      omega (
        arith,
        length-keep (λ t. not (t.id == timer.id)) (fire now timers ts),
        length-fire now timers ts,
      ))
  | inr e ↦ rw e (length-fire now timers ts)
]

-- No toast outlives a timer of its own that is due.
fire-is_due :
    (now : ℕ) (timers : List Timer) (ts : List Toast)
    → All (λ t. is_due now timers t ≡ false) (fire now timers ts)
unfolding fire dismiss is_due
fire-is_due now [] ts = all_of ts
  where
    all_of : (ts : List Toast) → All (λ t. false ≡ false) ts
    all_of [] = tt
    all_of (t ∷ ts) = (refl, all_of ts)
fire-is_due now (timer ∷ timers) ts = step (leb timer.due now) refl (fire-is_due now timers ts)
  where
    step :
        (due : Bool)
        → leb timer.due now ≡ due
        → All (λ t. is_due now timers t ≡ false) (fire now timers ts)
        → All
            (λ t. is_due now (timer ∷ timers) t ≡ false)
            (if due then dismiss timer.id (fire now timers ts) else fire now timers ts)
    step true e ih =
        All-keep_with (λ t. is_due now timers t ≡ false)
          (λ t. is_due now (timer ∷ timers) t ≡ false) (λ t. not (t.id == timer.id))
          (λ t k q. ground arith) (fire now timers ts) ih
    step false e ih =
        All-map (λ t. is_due now timers t ≡ false) (λ t. is_due now (timer ∷ timers) t ≡ false)
          (λ t k. ground arith) (fire now timers ts) ih

-- A timer that is not due keeps its place.
still_timed :
    (now later : ℕ) (timers : List Timer) (t : Toast)
    → now ≤ later
    → has_timer now timers t ≡ true
    → is_due later timers t ≡ false
    → has_timer later (keep (λ timer. not (leb timer.due later)) timers) t ≡ true
unfolding is_due
still_timed now later [] t le h d = cc
still_timed now later (timer ∷ timers) t le h d = elim (Bool-cases (leb timer.due later)) [
  | inl e ↦ rw e (still_timed now later timers t le (ground arith) (ground arith))
  | inr e ↦ elim (Bool-cases (has_timer now timers t)) [
    | inl k ↦ rw (e, still_timed now later timers t le k (ground arith)) (or_true _)
    | inr k ↦ rw e (ground arith)
  ]
]
  where
    or_true : (b : Bool) → (b || true) ≡ true
    or_true b = ground arith

-- After eight seconds every timer is due.
is_due_later :
    (now ms : ℕ) (timers : List Timer) (t : Toast)
    → 8000 ≤ ms
    → has_timer now timers t ≡ true
    → is_due (now + ms) timers t ≡ true
unfolding is_due
is_due_later now ms [] t long h = cc
is_due_later now ms (timer ∷ timers) t long h = ground (arith, is_due_later now ms timers t long)

passed-IsTidy : (p : Provider) (ms : ℕ) → IsTidy p → IsTidy (handle p (passed ms))
unfolding handle
passed-IsTidy p ms h = record {
  at_most_five = omega (arith, length-fire (p.now + ms) p.timers p.toasts, h.at_most_five);
  ids_rise = Rising-fire p.next_id (p.now + ms) p.timers p.toasts h.ids_rise;
  all_timed =
      All-map (λ t. (has_timer p.now p.timers t ≡ true) × (is_due (p.now + ms) p.timers t ≡ false))
        _ (λ t both. still_timed p.now (p.now + ms) p.timers t (omega arith) both.0 both.1) left
        (All-zip (λ t. has_timer p.now p.timers t ≡ true)
          (λ t. is_due (p.now + ms) p.timers t ≡ false) left
          (All-fire (λ t. has_timer p.now p.timers t ≡ true) (p.now + ms) p.timers p.toasts
            h.all_timed)
          (fire-is_due (p.now + ms) p.timers p.toasts));
}
  where
    left : List Toast
    left = fire (p.now + ms) p.timers p.toasts

run-kept : (events : List Event) (p : Provider) → IsTidy p → IsTidy (run p events)
unfolding handle dismiss
run-kept [] p h = h
run-kept (pushed kind title detail has_action ∷ rest) p h =
    run-kept rest _ (push-IsTidy p kind title detail has_action h)
run-kept (closed id ∷ rest) p h =
    let q : Toast → Bool = λ toast. not (toast.id == id) in
    run-kept rest _ (record {
      at_most_five = omega (arith, length-keep q p.toasts, h.at_most_five);
      ids_rise = Rising-keep p.next_id q p.toasts h.ids_rise;
      all_timed = All-keep (λ t. has_timer p.now p.timers t ≡ true) q p.toasts h.all_timed;
    })
run-kept (passed ms ∷ rest) p h = run-kept rest _ (passed-IsTidy p ms h)

-- After any sequence of pushes, dismissals and pauses, at most five toasts are shown, their ids rise
-- in the order of the list, each below the next id to be given, and each has a timer that
-- dismisses it within eight seconds.
pub run-IsTidy : (events : List Event) → IsTidy (run initial events)
run-IsTidy events =
    run-kept events initial (record { at_most_five = omega arith; ids_rise = tt; all_timed = tt })

-- Eight seconds without a push leave no toast.
pub run-passed :
    (events : List Event) (ms : ℕ)
    → 8000 ≤ ms
    → (handle (run initial events) (passed ms)).toasts ≡ []
unfolding handle
run-passed events ms long =
    let p = run initial events in
    let h = run-IsTidy events in
    none_left (fire (p.now + ms) p.timers p.toasts) (
      All-zip (λ t. has_timer p.now p.timers t ≡ true) (λ t. is_due (p.now + ms) p.timers t ≡ false)
        _
        (All-fire (λ t. has_timer p.now p.timers t ≡ true) (p.now + ms) p.timers p.toasts
          h.all_timed)
        (fire-is_due (p.now + ms) p.timers p.toasts))
  where
    none_left :
        (ts : List Toast)
        → All
            (λ t.
              (has_timer (run initial events).now (run initial events).timers t ≡ true)
              × (is_due ((run initial events).now + ms) (run initial events).timers t ≡ false))
            ts
        → ts ≡ []
    none_left [] h = refl
    none_left (t ∷ ts) h = absurd (let s = is_due_later _ ms _ t long h.0.0 in let d = h.0.1 in cc)

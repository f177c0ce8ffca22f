-- ===== src/Toast.antt =====
-- web/src/components/Toast.tsx: the provider's list of toasts, the counter of their ids and the
-- timers that dismiss them. Time is in milliseconds.
pub mod Shown
use prox_back.Prelude.{
  ℕ, suc, ◌+◌, Bool, true, false, not, List, [], ◌∷◌, ◌++◌, ◌||◌, ◌==◌, leb, ltb, if◌then◌else◌,
  length, keep,
}
use prox_back.Js.Text.{Text}

pub data ToastKind : Type 0 where
  success error info : ToastKind

-- `interface Toast`; of the action, whether there is one.
pub record Toast : Type 0 where
  pub id : ℕ
  pub kind : ToastKind
  pub title : Text
  pub detail : Text
  pub has_action : Bool

-- A `setTimeout` that dismisses a toast.
pub record Timer : Type 0 where
  pub due : ℕ
  pub id : ℕ

pub record Provider : Type 0 where
  pub toasts : List Toast
  pub next_id : ℕ
  pub timers : List Timer
  pub now : ℕ

abbrev pub initial : Provider
initial = record { toasts = []; next_id = 1; timers = []; now = 0 }

-- `xs.slice(-n)` for a positive `n`.
unfoldable pub slice_last : {A : Type 0} → ℕ → List A → List A
slice_last n [] = []
slice_last n (x ∷ xs) =
    let rest = slice_last n xs in if ltb n (length (x ∷ xs)) then rest else x ∷ xs

-- `dismiss`.
unfoldable pub dismiss : ℕ → List Toast → List Toast
dismiss id toasts = keep (λ toast. not (toast.id == id)) toasts

abbrev pub is_error : ToastKind → Bool
is_error error = true
is_error _ = false

-- How long a toast stays.
abbrev pub lifetime : ToastKind → Bool → ℕ
lifetime kind has_action = if is_error kind || has_action then 8000 else 4500

-- `push`.
unfoldable pub push : Provider → ToastKind → Text → Text → Bool → Provider
push p kind title detail has_action =
    let id = p.next_id in
    record {
      toasts =
          slice_last 4 p.toasts
          ++ (record {
            id = id;
            kind = kind;
            title = title;
            detail = detail;
            has_action = has_action;
          }
              ∷ []);
      next_id = id + 1;
      timers = record { due = p.now + lifetime kind has_action; id = id } ∷ p.timers;
      now = p.now;
    }

-- Every timer that is due dismisses its toast.
unfoldable pub fire : ℕ → List Timer → List Toast → List Toast
fire now [] toasts = toasts
fire now (timer ∷ timers) toasts =
    let rest = fire now timers toasts in if leb timer.due now then dismiss timer.id rest else rest

-- What happens to the provider: a page pushes a toast, the operator closes one or takes its action,
-- time passes.
pub data Event : Type 0 where
  pushed : ToastKind → Text → Text → Bool → Event
  closed : ℕ → Event
  passed : ℕ → Event

unfoldable pub handle : Provider → Event → Provider
handle p (pushed kind title detail has_action) = push p kind title detail has_action
handle p (closed id) = record p { toasts = dismiss id p.toasts }
handle p (passed ms) = record p {
  toasts = fire (p.now + ms) p.timers p.toasts;
  timers = keep (λ timer. not (leb timer.due (p.now + ms))) p.timers;
  now = p.now + ms;
}

abbrev pub run : Provider → List Event → Provider
run p [] = p
run p (event ∷ rest) = run (handle p event) rest

-- ===== src/PolicyStep/Limits.antt =====
-- The limits of a policy under the handlers of web/src/components/PolicyStep.tsx.
use prox_back.Prelude.{
  ℕ, ◌≤◌, ◌≡◌, refl, Bool, true, false, List, [], ◌∷◌, Option, none, some, All, All-append, any,
  is_empty, arith, Bool-cases, inl, inr, if◌then◌else◌,
}
use prox_back.Js.Text.{Text, codes, same_text, trim}
use prox_back.Js.Text.Trimming.{trim_idem}
use prox_back.Js.Number.{Number, finite, round, number_of_text}
use prox_back.Js.Number.Bounds.{clamp_bounds}
use prox_back.Api.Wire.{is_hhmm}
use prox_back.Api.Wire.Laws.{IsTime, IsEntry}
use prox_back.Api.Policy.{BackupWindow, JobPolicy, parse_policy, to_value}
use prox_back.Api.Policy.Normal.{IsWindow, IsNormal, default_policy-IsNormal, parse_policy-half}
use prox_back.PolicyStep.{
  clamp_number, clamp_text, add_token, remove_token, start_of, finish_of, Edit, reset, set_quiesce,
  add_disk, remove_disk, add_pattern, remove_pattern, type_retries, type_delay, type_duration,
  check_window, type_start, type_finish, type_before, type_after, type_timeout, type_upload, edit,
}

clamp_text_bounds :
    (lo hi : ℕ) (text : Text)
    → lo ≤ hi
    → (lo ≤ clamp_text lo hi text) × (clamp_text lo hi text ≤ hi)
unfolding clamp_text clamp_number
clamp_text_bounds lo hi text h = bounds (number_of_text text)
  where
    bounds : (n : Number) → (lo ≤ clamp_number lo hi n) × (clamp_number lo hi n ≤ hi)
    bounds (finite m d) = clamp_bounds lo hi (round m d) h
    bounds _ = omega arith

add_token-IsEntry :
    (draft : Text) (ts : List Text) → All IsEntry ts → All IsEntry (add_token draft ts)
unfolding add_token
add_token-IsEntry draft ts h = elim (Bool-cases (is_empty (trim draft))) [
  | inl e ↦ rw e h
  | inr e ↦ elim (Bool-cases (any (same_text (trim draft)) ts)) [
    | inl k ↦ rw (e, k) h
    | inr k ↦ rw (e, k) (All-append IsEntry ts (trim draft ∷ []) h ((trim_idem draft, e), tt))
  ]
]

remove_token-IsEntry :
    (t : Text) (ts : List Text) → All IsEntry ts → All IsEntry (remove_token t ts)
unfolding remove_token
remove_token-IsEntry t [] h = tt
remove_token-IsEntry t (u ∷ us) h = elim (Bool-cases (same_text u t)) [
  | inl e ↦ rw e (remove_token-IsEntry t us h.1)
  | inr e ↦ rw e (h.0, remove_token-IsEntry t us h.1)
]

-- What the time fields hand over while a time is in them; the other controls hand over anything.
abbrev pub IsTyped : Edit → Type 0
IsTyped (type_start text) = IsTime text
IsTyped (type_finish text) = IsTime text
IsTyped _ = Unit

finish_of-IsTime : (w : Option BackupWindow) → IsWindow w → IsTime (finish_of w)
unfolding finish_of
finish_of-IsTime none h = unfold is_hhmm in refl
finish_of-IsTime (some w) h = h.1

start_of-IsTime : (w : Option BackupWindow) → IsWindow w → IsTime (start_of w)
unfolding start_of
start_of-IsTime none h = unfold is_hhmm in refl
start_of-IsTime (some w) h = h.0

checked :
    (on : Bool)
    → IsWindow
        (if on then some (record { start = codes "22:00"; finish = codes "06:00" }) else none)
checked true = unfold is_hhmm in (refl, refl)
checked false = tt

within_of :
    (p : JobPolicy)
    → All IsEntry p.exclude_disks
    → All IsEntry p.exclude_paths
    → p.retry_count ≤ 5
    → (1 ≤ p.retry_delay_minutes) × (p.retry_delay_minutes ≤ 120)
    → p.max_duration_minutes ≤ 10_080
    → IsWindow p.window
    → (1 ≤ p.script_timeout_seconds) × (p.script_timeout_seconds ≤ 3600)
    → p.upload_limit_mbps_override ≤ 10_000
    → IsNormal p
within_of p a b c d e f g h = record {
  disks = a;
  paths = b;
  retries = c;
  delay = d;
  duration = e;
  start_window = f;
  timeout = g;
  upload = h;
}

-- Whatever is typed, pressed or removed, the policy stays within its limits, if the time fields hand
-- over times.
pub edit-within : (p : JobPolicy) (e : Edit) → IsTyped e → IsNormal p → IsNormal (edit p e)
unfolding edit
edit-within p reset o h = default_policy-IsNormal
edit-within p (set_quiesce q) o h =
    within_of _ h.disks h.paths h.retries h.delay h.duration h.start_window h.timeout h.upload
edit-within p (add_disk text) o h =
    within_of _ (add_token-IsEntry text p.exclude_disks h.disks) h.paths h.retries h.delay
      h.duration h.start_window h.timeout h.upload
edit-within p (remove_disk text) o h =
    within_of _ (remove_token-IsEntry text p.exclude_disks h.disks) h.paths h.retries h.delay
      h.duration h.start_window h.timeout h.upload
edit-within p (add_pattern text) o h =
    within_of _ h.disks (add_token-IsEntry text p.exclude_paths h.paths) h.retries h.delay
      h.duration h.start_window h.timeout h.upload
edit-within p (remove_pattern text) o h =
    within_of _ h.disks (remove_token-IsEntry text p.exclude_paths h.paths) h.retries h.delay
      h.duration h.start_window h.timeout h.upload
edit-within p (type_retries text) o h =
    within_of _ h.disks h.paths (clamp_text_bounds 0 5 text (omega arith)).1 h.delay h.duration
      h.start_window h.timeout h.upload
edit-within p (type_delay text) o h =
    within_of _ h.disks h.paths h.retries (clamp_text_bounds 1 120 text (omega arith)) h.duration
      h.start_window h.timeout h.upload
edit-within p (type_duration text) o h =
    within_of _ h.disks h.paths h.retries h.delay (clamp_text_bounds 0 10_080 text (omega arith)).1
      h.start_window h.timeout h.upload
edit-within p (check_window on) o h =
    within_of _ h.disks h.paths h.retries h.delay h.duration (checked on) h.timeout h.upload
edit-within p (type_start text) o h =
    within_of _ h.disks h.paths h.retries h.delay h.duration
      (o, finish_of-IsTime p.window h.start_window) h.timeout h.upload
edit-within p (type_finish text) o h =
    within_of _ h.disks h.paths h.retries h.delay h.duration
      (start_of-IsTime p.window h.start_window, o) h.timeout h.upload
edit-within p (type_before text) o h =
    within_of _ h.disks h.paths h.retries h.delay h.duration h.start_window h.timeout h.upload
edit-within p (type_after text) o h =
    within_of _ h.disks h.paths h.retries h.delay h.duration h.start_window h.timeout h.upload
edit-within p (type_timeout text) o h =
    within_of _ h.disks h.paths h.retries h.delay h.duration h.start_window
      (clamp_text_bounds 1 3600 text (omega arith)) h.upload
edit-within p (type_upload text) o h =
    within_of _ h.disks h.paths h.retries h.delay h.duration h.start_window h.timeout
      (clamp_text_bounds 0 10_000 text (omega arith)).1

-- When either time field of a window is cleared, the policy that is posted holds a window with an
-- empty time, and whoever reads it as the console does finds no window at all.
pub edit-cleared :
    (p : JobPolicy) (w : BackupWindow)
    → p.window ≡ some w
    → ((edit p (type_start [])).window ≡ some (record { start = []; finish = w.finish }))
      × ((parse_policy (to_value (edit p (type_start [])))).window ≡ none)
      × ((edit p (type_finish [])).window ≡ some (record { start = w.start; finish = [] }))
      × ((parse_policy (to_value (edit p (type_finish [])))).window ≡ none)
unfolding edit start_of finish_of
edit-cleared p w on =
    let start = parse_policy-half p (finish_of p.window) in
    let finish = parse_policy-half p (start_of p.window) in
    (rw on refl, start.0, rw on refl, finish.1)

-- ===== src/Api/Policy/Normal.antt =====
-- The limits of a policy: `parsePolicy` of web/src/api.ts and the object that the client sends.
use prox_back.Prelude.{◌≤◌, ◌≡◌, refl, false, [], ◌∷◌, Option, none, some, arith, All, is_empty}
use prox_back.Js.Text.{Text, codes}
use prox_back.Js.Value.{Value, str, arr, obj, property, lookup}
use prox_back.Api.Wire.{time_of, is_hhmm}
use prox_back.Api.Wire.Laws.{
  IsTime, IsEntry, clamp_int_bounds, clamp_int-whole, time_of_id, string_list-IsEntry,
  string_list_id,
}
use prox_back.Api.Policy.{
  Quiesce, no_quiesce, guest_agent, BackupWindow, JobPolicy, default_policy, window_between,
  window_of, quiesce_of, quiesce_value, window_value, text_or_empty, parse_fields, parse_policy,
  to_value,
}

abbrev pub IsWindow : Option BackupWindow → Type 0
IsWindow none = Unit
IsWindow (some w) = IsTime w.start × IsTime w.finish

-- The limits that the fields of a policy keep.
pub record IsNormal (p : JobPolicy) : Type 0 where
  pub disks : All IsEntry p.exclude_disks
  pub paths : All IsEntry p.exclude_paths
  pub retries : p.retry_count ≤ 5
  pub delay : (1 ≤ p.retry_delay_minutes) × (p.retry_delay_minutes ≤ 120)
  pub duration : p.max_duration_minutes ≤ 10_080
  pub start_window : IsWindow p.window
  pub timeout : (1 ≤ p.script_timeout_seconds) × (p.script_timeout_seconds ≤ 3600)
  pub upload : p.upload_limit_mbps_override ≤ 10_000

-- With the empty text for a fallback, what is not empty is a time.
time_of_nil-IsTime : (v : Value) → is_empty (time_of v []) ≡ false → IsTime (time_of v [])
unfolding time_of
time_of_nil-IsTime (str s) h = ground arith
time_of_nil-IsTime _ h = cc

window_of-IsWindow : (v : Value) → IsWindow (window_of v)
unfolding window_of
window_of-IsWindow (obj fields) =
    between _ _ (time_of_nil-IsTime (lookup (codes "start") fields))
      (time_of_nil-IsTime (lookup (codes "end") fields))
  where
    between :
        (s t : Text)
        → (is_empty s ≡ false → IsTime s)
        → (is_empty t ≡ false → IsTime t)
        → IsWindow (window_between s t)
    between [] t p q = tt
    between (c ∷ s) [] p q = tt
    between (c ∷ s) (d ∷ t) p q = (p refl, q refl)
window_of-IsWindow _ = tt

parse_fields-IsNormal : (raw : Value) → IsNormal (parse_fields raw)
unfolding parse_fields
parse_fields-IsNormal raw = record {
  disks = string_list-IsEntry _;
  paths = string_list-IsEntry _;
  retries = (clamp_int_bounds _ 0 5 0 (omega arith) (omega arith)).1;
  delay = clamp_int_bounds _ 1 120 5 (omega arith) (omega arith);
  duration = (clamp_int_bounds _ 0 10_080 0 (omega arith) (omega arith)).1;
  start_window = window_of-IsWindow (property (codes "window") raw);
  timeout = clamp_int_bounds _ 1 3600 30 (omega arith) (omega arith);
  upload = (clamp_int_bounds _ 0 10_000 0 (omega arith) (omega arith)).1;
}

pub default_policy-IsNormal : IsNormal default_policy
default_policy-IsNormal = record {
  disks = tt;
  paths = tt;
  retries = omega arith;
  delay = omega arith;
  duration = omega arith;
  start_window = tt;
  timeout = omega arith;
  upload = omega arith;
}

-- Whatever the server sends is read as a policy whose fields are all within their limits.
pub parse_policy-IsNormal : (v : Value) → IsNormal (parse_policy v)
unfolding parse_policy
parse_policy-IsNormal (obj fields) = parse_fields-IsNormal (obj fields)
parse_policy-IsNormal (arr items) = parse_fields-IsNormal (arr items)
parse_policy-IsNormal _ = default_policy-IsNormal

quiesce_of-quiesce_value : (q : Quiesce) → quiesce_of (quiesce_value q) ≡ q
unfolding quiesce_of quiesce_value
quiesce_of-quiesce_value no_quiesce = refl
quiesce_of-quiesce_value guest_agent = refl

window_of-window_value : (w : Option BackupWindow) → IsWindow w → window_of (window_value w) ≡ w
unfolding window_of window_value is_hhmm
window_of-window_value none h = refl
window_of-window_value (some w) h =
    rw (time_of_id w.start [] h.0, time_of_id w.finish [] h.1) (between w.start w.finish h.0 h.1)
  where
    between :
        (s t : Text)
        → IsTime s
        → IsTime t
        → window_between s t ≡ some (record { start = s; finish = t })
    between [] t p q = cc
    between (c ∷ s) [] p q = cc
    between (c ∷ s) (d ∷ t) p q = refl

-- A policy within the limits survives being sent and read back.
pub parse_policy-to_value : (p : JobPolicy) → IsNormal p → parse_policy (to_value p) ≡ p
unfolding parse_policy to_value text_or_empty
parse_policy-to_value p h = λ i. record {
  quiesce = quiesce_of-quiesce_value p.quiesce i;
  exclude_disks = string_list_id p.exclude_disks h.disks i;
  exclude_paths = string_list_id p.exclude_paths h.paths i;
  retry_count = clamp_int-whole 0 5 0 p.retry_count (omega arith) h.retries i;
  retry_delay_minutes = clamp_int-whole 1 120 5 p.retry_delay_minutes h.delay.0 h.delay.1 i;
  max_duration_minutes =
      clamp_int-whole 0 10_080 0 p.max_duration_minutes (omega arith) h.duration i;
  window = window_of-window_value p.window h.start_window i;
  pre_script = p.pre_script;
  post_script = p.post_script;
  script_timeout_seconds =
      clamp_int-whole 1 3600 30 p.script_timeout_seconds h.timeout.0 h.timeout.1 i;
  upload_limit_mbps_override =
      clamp_int-whole 0 10_000 0 p.upload_limit_mbps_override (omega arith) h.upload i;
}

-- A window that lacks a time is read as none.
pub parse_policy-half :
    (p : JobPolicy) (t : Text)
    → ((parse_policy
          (to_value (record p { window = some (record { start = []; finish = t }) }))).window
        ≡ none)
      × ((parse_policy
            (to_value (record p { window = some (record { start = t; finish = [] }) }))).window
          ≡ none)
unfolding parse_policy to_value window_of time_of is_hhmm
parse_policy-half p t = (refl, last _)
  where
    last : (s : Text) → window_between s [] ≡ none
    last [] = refl
    last (c ∷ s) = refl

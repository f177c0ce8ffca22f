-- ===== src/PolicyStep.antt =====
-- web/src/components/PolicyStep.tsx: the handlers of the protection step and of its lists.
pub mod Limits
use prox_back.Prelude.{
  ℕ, Bool, true, false, not, List, [], ◌∷◌, ◌++◌, Option, none, some, ◌||◌, if◌then◌else◌, is_empty,
  any, keep,
}
use prox_back.Js.Text.{Text, codes, same_text, trim}
use prox_back.Js.Number.{Number, finite, round, clamp, number_of_text}
use prox_back.Api.Policy.{Quiesce, BackupWindow, JobPolicy, default_policy}

clamp_number : ℕ → ℕ → Number → ℕ
clamp_number lo hi (finite m d) = clamp lo hi (round m d)
clamp_number lo hi _ = lo

-- `clampInt`, on the text of a field.
unfoldable pub clamp_text : ℕ → ℕ → Text → ℕ
unfolding clamp_number
clamp_text lo hi text = clamp_number lo hi (number_of_text text)

-- `add` of `TokenList`: the values after it.
unfoldable pub add_token : Text → List Text → List Text
add_token draft values =
    if is_empty (trim draft) || any (same_text (trim draft)) values
    then values
    else values ++ (trim draft ∷ [])

-- The button of a value that removes it.
unfoldable pub remove_token : Text → List Text → List Text
remove_token value values = keep (λ item. not (same_text item value)) values

-- What an operator can do to the policy.
pub data Edit : Type 0 where
  reset : Edit
  set_quiesce : Quiesce → Edit
  add_disk remove_disk add_pattern remove_pattern : Text → Edit
  type_retries type_delay type_duration : Text → Edit
  check_window : Bool → Edit
  type_start type_finish : Text → Edit
  type_before type_after : Text → Edit
  type_timeout type_upload : Text → Edit

start_of : Option BackupWindow → Text
start_of none = codes "22:00"
start_of (some w) = w.start

finish_of : Option BackupWindow → Text
finish_of none = codes "06:00"
finish_of (some w) = w.finish

-- `patch` in the handlers.
unfoldable pub edit : JobPolicy → Edit → JobPolicy
unfolding start_of finish_of
edit p reset = default_policy
edit p (set_quiesce q) = record p { quiesce = q }
edit p (add_disk text) = record p { exclude_disks = add_token text p.exclude_disks }
edit p (remove_disk text) = record p { exclude_disks = remove_token text p.exclude_disks }
edit p (add_pattern text) = record p { exclude_paths = add_token text p.exclude_paths }
edit p (remove_pattern text) = record p { exclude_paths = remove_token text p.exclude_paths }
edit p (type_retries text) = record p { retry_count = clamp_text 0 5 text }
edit p (type_delay text) = record p { retry_delay_minutes = clamp_text 1 120 text }
edit p (type_duration text) = record p { max_duration_minutes = clamp_text 0 10_080 text }
edit p (check_window on) = record p {
  window = if on then some (record { start = codes "22:00"; finish = codes "06:00" }) else none;
}
edit p (type_start text) = record p {
  window = some (record { start = text; finish = finish_of p.window });
}
edit p (type_finish text) = record p {
  window = some (record { start = start_of p.window; finish = text });
}
edit p (type_before text) = record p { pre_script = text }
edit p (type_after text) = record p { post_script = text }
edit p (type_timeout text) = record p { script_timeout_seconds = clamp_text 1 3600 text }
edit p (type_upload text) = record p { upload_limit_mbps_override = clamp_text 0 10_000 text }

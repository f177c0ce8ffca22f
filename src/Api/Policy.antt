-- ===== src/Api/Policy.antt =====
-- The protection policy of a job in web/src/api.ts: its type, `parsePolicy` and `isDefaultPolicy`.
pub mod Normal
pub mod Highlights
use prox_back.Prelude.{
  ℕ, Bool, true, false, List, [], Option, none, some, ◌&&◌, ◌||◌, ◌==◌, if◌then◌else◌, is_empty,
  map,
}
use prox_back.Js.Text.{Text, codes}
use prox_back.Js.Number.{whole}
use prox_back.Js.Value.{
  Value, null, num, str, arr, obj, Fields, end, field, of_list, property, lookup,
}
use prox_back.Api.Wire.{clamp_int, time_of, string_list}
use prox_back.Api.Schedule.{is_text}

-- `none` and `guest-agent`.
pub data Quiesce : Type 0 where
  no_quiesce guest_agent : Quiesce

pub record BackupWindow : Type 0 where
  pub start : Text
  pub finish : Text

pub record JobPolicy : Type 0 where
  pub quiesce : Quiesce
  pub exclude_disks : List Text
  pub exclude_paths : List Text
  pub retry_count : ℕ
  pub retry_delay_minutes : ℕ
  pub max_duration_minutes : ℕ
  pub window : Option BackupWindow
  pub pre_script : Text
  pub post_script : Text
  pub script_timeout_seconds : ℕ
  pub upload_limit_mbps_override : ℕ

abbrev pub default_policy : JobPolicy
default_policy = record {
  quiesce = no_quiesce;
  exclude_disks = [];
  exclude_paths = [];
  retry_count = 0;
  retry_delay_minutes = 5;
  max_duration_minutes = 0;
  window = none;
  pre_script = [];
  post_script = [];
  script_timeout_seconds = 30;
  upload_limit_mbps_override = 0;
}

window_between : Text → Text → Option BackupWindow
window_between start finish =
    if is_empty start || is_empty finish
    then none
    else some (record { start = start; finish = finish })

-- `windowOf`. An array is an object without the fields.
unfoldable pub window_of : Value → Option BackupWindow
unfolding window_between time_of lookup
window_of (obj fields) =
    window_between (time_of (lookup (codes "start") fields) [])
      (time_of (lookup (codes "end") fields) [])
window_of _ = none

quiesce_of : Value → Quiesce
unfolding is_text
quiesce_of v = if is_text v (codes "guest-agent") then guest_agent else no_quiesce

-- `typeof value === 'string' ? value : ''`.
text_or_empty : Value → Text
text_or_empty (str s) = s
text_or_empty _ = []

parse_fields : Value → JobPolicy
unfolding window_of quiesce_of text_or_empty lookup
parse_fields raw = record {
  quiesce = quiesce_of (property (codes "quiesce") raw);
  exclude_disks = string_list (property (codes "excludeDisks") raw);
  exclude_paths = string_list (property (codes "excludePaths") raw);
  retry_count = clamp_int (property (codes "retryCount") raw) 0 5 0;
  retry_delay_minutes = clamp_int (property (codes "retryDelayMinutes") raw) 1 120 5;
  max_duration_minutes = clamp_int (property (codes "maxDurationMinutes") raw) 0 10_080 0;
  window = window_of (property (codes "window") raw);
  pre_script = text_or_empty (property (codes "preScript") raw);
  post_script = text_or_empty (property (codes "postScript") raw);
  script_timeout_seconds = clamp_int (property (codes "scriptTimeoutSeconds") raw) 1 3600 30;
  upload_limit_mbps_override =
      clamp_int (property (codes "uploadLimitMbpsOverride") raw) 0 10_000 0;
}

-- `parsePolicy`: objects and arrays are read field by field, anything else is the default.
unfoldable pub parse_policy : Value → JobPolicy
unfolding parse_fields
parse_policy (obj fields) = parse_fields (obj fields)
parse_policy (arr items) = parse_fields (arr items)
parse_policy _ = default_policy

abbrev pub is_no_quiesce : Quiesce → Bool
is_no_quiesce no_quiesce = true
is_no_quiesce guest_agent = false

abbrev pub is_none {ℓ} : {A : Type ℓ} → Option A → Bool
is_none none = true
is_none (some a) = false

-- `isDefaultPolicy`.
unfoldable pub is_default_policy : JobPolicy → Bool
is_default_policy p =
    is_no_quiesce p.quiesce
    && is_empty p.exclude_disks
    && is_empty p.exclude_paths
    && p.retry_count == default_policy.retry_count
    && p.max_duration_minutes == default_policy.max_duration_minutes
    && is_none p.window
    && is_empty p.pre_script
    && is_empty p.post_script
    && p.upload_limit_mbps_override == default_policy.upload_limit_mbps_override

quiesce_value : Quiesce → Value
quiesce_value no_quiesce = str (codes "none")
quiesce_value guest_agent = str (codes "guest-agent")

window_value : Option BackupWindow → Value
window_value none = null
window_value (some w) =
    obj (field (codes "start") (str w.start) (field (codes "end") (str w.finish) end))

-- The object of a policy, as the client sends it.
unfoldable pub to_value : JobPolicy → Value
unfolding quiesce_value window_value
to_value p = obj (
    field (codes "quiesce") (quiesce_value p.quiesce) (
      field (codes "excludeDisks") (arr (of_list (map str p.exclude_disks))) (
        field (codes "excludePaths") (arr (of_list (map str p.exclude_paths))) (
          field (codes "retryCount") (num (whole p.retry_count)) (
            field (codes "retryDelayMinutes") (num (whole p.retry_delay_minutes)) (
              field (codes "maxDurationMinutes") (num (whole p.max_duration_minutes)) (
                field (codes "window") (window_value p.window) (
                  field (codes "preScript") (str p.pre_script) (
                    field (codes "postScript") (str p.post_script) (
                      field (codes "scriptTimeoutSeconds") (num (whole p.script_timeout_seconds)) (
                        field (codes "uploadLimitMbpsOverride")
                          (num (whole p.upload_limit_mbps_override)) end)))))))))))

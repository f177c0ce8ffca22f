-- ===== src/Tests/Settings.antt =====
-- Policies, retention, roles and errors at concrete inputs.
use prox_back.Prelude.{◌≡◌, refl, ◌≢◌, [], ◌∷◌, some, none, arith}
use prox_back.Js.Text.{Text, codes, trim}
use prox_back.Js.Number.{whole}
use prox_back.Js.Value.{Value, num, str, arr, obj, field, end, cons, nil}
use prox_back.Api.Wire.{is_hhmm}
use prox_back.Api.Policy.{JobPolicy, default_policy, parse_policy, is_default_policy, BackupWindow}
use prox_back.Api.Policy.Normal.{parse_policy-IsNormal, parse_policy-to_value}
use prox_back.Api.Retention.{default_retention}
use prox_back.Api.Retention.Normal.{
  parse_retention-IsNormal, parse_retention-to_value, edit-IsNormal,
}
use prox_back.Api.Errors.{ApiError, api, Read, got, Response, answered, thrown, request}
use prox_back.Api.Errors.Laws.{request-failure}
use prox_back.PolicyStep.{type_retries, type_start, type_finish}
use prox_back.PolicyStep.Limits.{edit-cleared}
use prox_back.PolicyStep
use prox_back.Api.Policy
use prox_back.Api.Policy.Normal as PolicyNormal
use prox_back.Api.Retention.Normal as RetentionNormal

abbrev policy_value : Value
policy_value = obj (
    field (codes "retryCount") (num (whole 9))
      (field (codes "excludeDisks") (arr (cons (str (codes " scsi1 ")) nil)) end))

read_policy_example : PolicyNormal.IsNormal (parse_policy policy_value)
read_policy_example = parse_policy-IsNormal policy_value

abbrev careful : JobPolicy
careful = record default_policy {
  exclude_disks = codes "scsi1" ∷ [];
  retry_count = 3;
  window = some (record { start = codes "22:00"; finish = codes "06:00" });
}

careful-IsNormal : PolicyNormal.IsNormal careful
careful-IsNormal = record {
  disks = ((trimmed, refl), tt);
  paths = tt;
  retries = omega arith;
  delay = omega arith;
  duration = omega arith;
  start_window = unfold is_hhmm in (refl, refl);
  timeout = omega arith;
  upload = omega arith;
}
  where
    trimmed : trim (codes "scsi1") ≡ codes "scsi1"
    trimmed = unfold trim in refl

sent_policy_example : parse_policy (Policy.to_value careful) ≡ careful
sent_policy_example = parse_policy-to_value careful careful-IsNormal

abbrev night : BackupWindow
night = record { start = codes "22:00"; finish = codes "06:00" }

cleared_example :
    ((PolicyStep.edit careful (type_start [])).window
      ≡ some (record { start = []; finish = night.finish }))
    × ((parse_policy (Policy.to_value (PolicyStep.edit careful (type_start [])))).window ≡ none)
    × ((PolicyStep.edit careful (type_finish [])).window
        ≡ some (record { start = night.start; finish = [] }))
    × ((parse_policy (Policy.to_value (PolicyStep.edit careful (type_finish [])))).window ≡ none)
cleared_example = edit-cleared careful night refl

default-IsNormal : RetentionNormal.IsNormal default_retention
default-IsNormal = omega arith

abbrev viewer_session : Value
viewer_session = obj (field (codes "role") (str (codes "viewer")) end)

-- A reading of bodies that knows one of them.
abbrev parse_one : Text → Read Value
parse_one text = got (obj (field (codes "error") (str (codes "forbidden")) end))

abbrev refusal : Response
refusal = record { status = 403; text = got (codes "{}") }

failure_example :
    (e : ApiError) × (request parse_one (codes "/api/jobs") (answered refusal) ≡ thrown (api e))
    × (e.status ≡ refusal.status)
    × (e.url ≡ codes "/api/jobs")
    × (e.message ≢ [])
failure_example = request-failure parse_one (codes "/api/jobs") refusal refl

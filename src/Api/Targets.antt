-- ===== src/Api/Targets.antt =====
-- Storage targets in web/src/api.ts: `parseTargetKind`, `normaliseWarning`, `capacityOf`,
-- `targetLocation`.
pub mod Capacity
use prox_back.Prelude.{
  ℕ, zero, suc, ◌+◌, ◌-◌, ◌*◌, Bool, true, false, not, List, [], ◌∷◌, ◌++◌, Option, none, some,
  ◌&&◌, ◌||◌, ◌==◌, ltb, leb, min, if◌then◌else◌, is_empty, pos, negsuc,
}
use prox_back.Js.Text.{Text, codes, trim}
use prox_back.Js.Text.Start.{starts_with, strip_end, is_slash}
use prox_back.Js.Number.{Number, nan, infinity, minus_infinity, finite, whole}
use prox_back.Js.Value.{
  Value, undefined, null, bool, num, str, obj, arr, property, lookup, number_of,
}
use prox_back.Api.Schedule.{is_text}

pub data TargetKind : Type 0 where
  filesystem s3 : TargetKind

-- `parseTargetKind`.
unfoldable pub parse_target_kind : Value → TargetKind
unfolding is_text
parse_target_kind value = if is_text value (codes "filesystem") then filesystem else s3

-- `isOffsite`.
unfoldable pub is_offsite : TargetKind → Bool
is_offsite s3 = true
is_offsite filesystem = false

pub record TargetWarning : Type 0 where
  pub code : Text
  pub message : Text

-- `a || b` on texts.
unfoldable pub or_text : Text → Text → Text
or_text [] b = b
or_text (c ∷ a) b = c ∷ a

-- The last lines of `normaliseWarning`.
unfoldable pub warning_of : Text → Text → Option TargetWarning
unfolding or_text
warning_of [] [] = none
warning_of code message =
    some (record { code = or_text code message; message = or_text message code })

-- `normaliseWarning`.
unfoldable pub normalise_warning : Value → Option TargetWarning
unfolding warning_of lookup trim
normalise_warning (str s) = of_text (trim s)
  where
    of_text : Text → Option TargetWarning
    of_text [] = none
    of_text (c ∷ t) = some (record { code = c ∷ t; message = c ∷ t })
normalise_warning (obj fields) =
    let code = text_or (lookup (codes "code") fields) [] in
    warning_of code
      (text_or (lookup (codes "message") fields) (text_or (lookup (codes "detail") fields) code))
  where
    text_or : Value → Text → Text
    text_or (str s) other = s
    text_or _ other = other
normalise_warning (arr items) = none
normalise_warning _ = none

-- What the console reads of a `Target`.
pub record Target : Type 0 where
  pub id : Text
  pub name : Text
  pub kind : TargetKind
  pub path : Text
  pub endpoint : Text
  pub bucket : Text
  pub free_bytes : Value
  pub total_bytes : Value

-- The percentages are exact fractions.
pub record TargetCapacity : Type 0 where
  pub used_bytes : ℕ
  pub free_bytes : ℕ
  pub total_bytes : ℕ
  pub used_pct : Number
  pub free_pct : Number
  pub low : Bool

-- The capacity for a total that is not zero.
unfoldable pub capacity_for : ℕ → ℕ → TargetCapacity
capacity_for total_less_one free =
    let total = suc total_less_one in
    let clamped_free = min free total in
    record {
      used_bytes = total - clamped_free;
      free_bytes = clamped_free;
      total_bytes = total;
      used_pct = finite (pos ((total - clamped_free) * 100)) total_less_one;
      free_pct = finite (pos (clamped_free * 100)) total_less_one;
      low = ltb (clamped_free * 100) (10 * total);
    }

-- `capacityOf`, for sizes that are whole numbers of bytes.
unfoldable pub capacity_of : Target → Option TargetCapacity
unfolding capacity_for number_of
capacity_of target =
    by_kind target.kind (number_of target.total_bytes) (number_of target.free_bytes)
  where
    by_kind : TargetKind → Number → Number → Option TargetCapacity
    by_kind filesystem (finite (pos (suc total)) zero) (finite (pos free) zero) =
        some (capacity_for total free)
    by_kind _ total free = none

-- `text.replace(/^https?:\/\//, '')`.
unfoldable pub drop_scheme : Text → Text
unfolding starts_with
drop_scheme s =
    if starts_with (codes "http://") s
    then drop 7 s
    else if starts_with (codes "https://") s
    then drop 8 s
    else s
  where
    drop : ℕ → Text → Text
    drop zero t = t
    drop (suc n) [] = []
    drop (suc n) (c ∷ t) = drop n t

-- `targetLocation`.
unfoldable pub target_location : Target → Text
unfolding drop_scheme or_text strip_end
target_location target = by_kind target.kind (strip_end is_slash (drop_scheme target.endpoint))
  where
    by_kind : TargetKind → Text → Text
    by_kind filesystem host = or_text target.path (codes "—")
    by_kind s3 [] = or_text target.bucket (codes "—")
    by_kind s3 (c ∷ host) = target.bucket ++ (codes " · " ++ (c ∷ host))

-- ===== src/Api/Runs.antt =====
-- The data reduction of a run: `reductionOf` of web/src/api.ts, and `clampPct` of
-- web/src/lib/format.ts.
pub mod Reduction
use prox_back.Prelude.{
  ℕ, zero, suc, ◌+◌, ◌-◌, ◌*◌, Bool, true, false, Option, none, some, ◌==◌, leb, if◌then◌else◌, pos,
  negsuc,
}
use prox_back.Js.Number.{Number, nan, infinity, minus_infinity, finite, whole}
use prox_back.Js.Value.{Value, undefined, null, num}

-- `RunKind`, or a kind that is missing.
pub data RunKind : Type 0 where
  backup restore verify unstated : RunKind

-- What `reductionOf` reads; the last two as they came.
pub record Figures : Type 0 where
  pub kind : RunKind
  pub bytes_processed : Number
  pub bytes_uploaded : Number
  pub reduction_pct : Value
  pub reduction_ratio : Value

pub record DataReduction : Type 0 where
  pub pct : Number
  pub ratio : Option Number
  pub applies : Bool

-- A fraction that is not negative: numerator, and denominator less one.
pub record Share : Type 0 where
  pub upper : ℕ
  pub lower : ℕ

-- `Number.isFinite(n) ? Math.max(0, n) : 0`.
unfoldable pub share_of : Number → Share
share_of (finite (pos n) d) = record { upper = n; lower = d }
share_of _ = record { upper = 0; lower = 0 }

-- `Math.max(0, Math.min(100, n / (d + 1)))`.
unfoldable pub cap_pct : ℕ → ℕ → Number
cap_pct n d = if leb n (100 * suc d) then finite (pos n) d else whole 100

-- `clampPct`.
unfoldable pub clamp_pct : Value → Number
unfolding cap_pct
clamp_pct (num (finite (pos n) d)) = cap_pct n d
clamp_pct _ = whole 0

-- `(1 - uploaded / processed) * 100`, which is not negative, where something was processed.
unfoldable pub derived_pct : Share → Share → Number
unfolding cap_pct
derived_pct processed uploaded =
    let source = processed.upper * suc uploaded.lower in
    let sent = uploaded.upper * suc processed.lower in
    if processed.upper == 0 then whole 0 else cap_pct (100 * (source - sent)) (source - 1)

-- The `pct` of a run whose data is reduced.
unfoldable pub pct_of : Value → Share → Share → Number
unfolding cap_pct derived_pct
pct_of (num (finite (pos n) d)) processed uploaded = cap_pct n d
pct_of (num (finite (negsuc n) d)) processed uploaded = whole 0
pct_of _ processed uploaded = derived_pct processed uploaded

-- `uploaded > 0 && processed > 0 ? processed / uploaded : null`.
unfoldable pub derived_ratio : Share → Share → Option Number
derived_ratio processed uploaded =
    let source = processed.upper * suc uploaded.lower in
    let sent = uploaded.upper * suc processed.lower in
    if sent == 0 then none else if source == 0 then none else some (finite (pos source) (sent - 1))

unfoldable pub ratio_of : Value → Share → Share → Option Number
unfolding derived_ratio
ratio_of (num (finite (pos (suc n)) d)) processed uploaded = some (finite (pos (suc n)) d)
ratio_of _ processed uploaded = derived_ratio processed uploaded

-- `run.kind === 'restore' || run.kind === 'verify'`.
unfoldable pub only_reads : RunKind → Bool
only_reads restore = true
only_reads verify = true
only_reads _ = false

-- `reductionOf`.
unfoldable pub reduction_of : Figures → DataReduction
unfolding share_of pct_of ratio_of only_reads
reduction_of run =
    let processed = share_of run.bytes_processed in
    let uploaded = share_of run.bytes_uploaded in
    if only_reads run.kind
    then record { pct = whole 0; ratio = none; applies = false }
    else record {
      pct = pct_of run.reduction_pct processed uploaded;
      ratio = ratio_of run.reduction_ratio processed uploaded;
      applies = true;
    }

-- ===== src/Api/Runs/Reduction.antt =====
-- The figures of `reductionOf` in web/src/api.ts.
use prox_back.Prelude.{
  ℕ, suc, ◌-◌, ◌*◌, ◌≤◌, ◌≡◌, refl, true, false, none, ◌==◌, leb, Bool-cases, inl, inr, pos, negsuc,
  arith,
}
use prox_back.Js.Number.{Number, nan, infinity, minus_infinity, finite, whole}
use prox_back.Js.Value.{Value, undefined, null, bool, num, str, obj, arr}
use prox_back.Api.Runs.{
  Figures, Share, share_of, cap_pct, derived_pct, pct_of, derived_ratio, ratio_of, only_reads,
  reduction_of,
}

-- A fraction from 0 to 100.
abbrev pub IsPercentage : Number → Type 0
IsPercentage v = (n : ℕ) × (d : ℕ) × (v ≡ finite (pos n) d) × (n ≤ 100 * suc d)

cap_pct-IsPercentage : (n d : ℕ) → IsPercentage (cap_pct n d)
unfolding cap_pct
cap_pct-IsPercentage n d = elim (Bool-cases (leb n (100 * suc d))) [
  | inl e ↦ rw e (n, d, refl, ground arith)
  | inr e ↦ rw e (100, 0, refl, omega arith)
]

derived_pct-IsPercentage : (p u : Share) → IsPercentage (derived_pct p u)
unfolding derived_pct
derived_pct-IsPercentage p u = elim (Bool-cases (p.upper == 0)) [
  | inl e ↦ rw e (0, 0, refl, omega arith)
  | inr e ↦ rw e (cap_pct-IsPercentage _ _)
]

pct_of-IsPercentage : (v : Value) (p u : Share) → IsPercentage (pct_of v p u)
unfolding pct_of
pct_of-IsPercentage (num (finite (pos n) d)) p u = cap_pct-IsPercentage n d
pct_of-IsPercentage (num (finite (negsuc n) d)) p u = (0, 0, refl, omega arith)
pct_of-IsPercentage (num nan) p u = derived_pct-IsPercentage p u
pct_of-IsPercentage (num infinity) p u = derived_pct-IsPercentage p u
pct_of-IsPercentage (num minus_infinity) p u = derived_pct-IsPercentage p u
pct_of-IsPercentage undefined p u = derived_pct-IsPercentage p u
pct_of-IsPercentage null p u = derived_pct-IsPercentage p u
pct_of-IsPercentage (bool b) p u = derived_pct-IsPercentage p u
pct_of-IsPercentage (str s) p u = derived_pct-IsPercentage p u
pct_of-IsPercentage (obj fields) p u = derived_pct-IsPercentage p u
pct_of-IsPercentage (arr items) p u = derived_pct-IsPercentage p u

-- Whatever a run reports, its reduction is a percentage from 0 to 100.
pub reduction_of-IsPercentage : (run : Figures) → IsPercentage (reduction_of run).pct
unfolding reduction_of
reduction_of-IsPercentage run = elim (Bool-cases (only_reads run.kind)) [
  | inl e ↦ rw e (0, 0, refl, omega arith)
  | inr e ↦ rw e (pct_of-IsPercentage run.reduction_pct _ _)
]

all_avoided-pct :
    (n d : ℕ)
    → derived_pct (record { upper = suc n; lower = d }) (record { upper = 0; lower = 0 })
      ≡ finite (pos (100 * suc n)) n
unfolding derived_pct cap_pct
all_avoided-pct n d =
    let read : (suc n == 0) ≡ false = ground arith in
    let source : suc n * 1 - 0 * suc d ≡ suc n = omega arith in
    let less : suc n * 1 - 1 ≡ n = omega arith in
    let capped : leb (100 * suc n) (100 * suc n) ≡ true = ground arith in
    rw (read, source, less, capped) refl

all_avoided-ratio :
    (n d : ℕ)
    → derived_ratio (record { upper = suc n; lower = d }) (record { upper = 0; lower = 0 }) ≡ none
unfolding derived_ratio
all_avoided-ratio n d = let sent : ((0 * suc d) == 0) ≡ true = ground arith in rw sent refl

-- A run that is no restore and no verification, that read something and uploaded nothing, and for
-- which the server states no figures, avoided all of its data and has no ratio.
pub reduction_of-all_avoided :
    (run : Figures) (n d : ℕ)
    → only_reads run.kind ≡ false
    → run.bytes_processed ≡ finite (pos (suc n)) d
    → run.bytes_uploaded ≡ whole 0
    → run.reduction_pct ≡ undefined
    → run.reduction_ratio ≡ undefined
    → (m : ℕ) × (((reduction_of run).pct ≡ finite (pos (100 * suc m)) m)
        × ((reduction_of run).ratio ≡ none)
        × ((reduction_of run).applies ≡ true))
unfolding reduction_of pct_of ratio_of share_of
reduction_of-all_avoided run n d k p u pct ratio = (
  n,
  (
    rw (k, p, u, pct, reduction_of) (all_avoided-pct n d),
    rw (k, p, u, ratio, reduction_of) (all_avoided-ratio n d),
    rw (k, reduction_of) refl,
  ),
)

-- ===== src/Api/Targets/Capacity.antt =====
-- The capacity of a target in web/src/api.ts.
use prox_back.Prelude.{
  ℕ, suc, ◌+◌, ◌*◌, ◌<◌, ◌≡◌, refl, ◌↔◌, ◌⊎◌, inl, inr, true, none, some, min, ltb, arith,
}
use prox_back.Js.Number.{whole}
use prox_back.Js.Value.{number_of}
use prox_back.Api.Targets.{
  TargetKind, filesystem, s3, Target, TargetCapacity, capacity_for, capacity_of,
}

-- A capacity that can be drawn.
pub record IsDrawn (total free : ℕ) (c : TargetCapacity) : Type 0 where
  pub adds_up : c.used_bytes + c.free_bytes ≡ total
  pub is_free : c.free_bytes ≡ min free total
  pub is_low : (c.low ≡ true) ↔ (c.free_bytes * 10 < total)

capacity_for-IsDrawn : (total free : ℕ) → IsDrawn (suc total) free (capacity_for total free)
unfolding capacity_for
capacity_for-IsDrawn total free = record {
  adds_up = omega arith;
  is_free = refl;
  is_low = low (min free (suc total)) (suc total);
}
  where
    low : (f t : ℕ) → (ltb (f * 100) (10 * t) ≡ true) ↔ (f * 10 < t)
    low f t = ground arith

-- Of a directory whose total is a whole number above zero and whose free space is a whole number a
-- capacity is shown: what is used and what is free add up to the total, what is free is never more
-- than it, and it is low exactly if less than a tenth is free. Of a bucket none is shown.
pub capacity_of-IsDrawn :
    (target : Target) (total free : ℕ)
    → number_of target.total_bytes ≡ whole (suc total)
    → number_of target.free_bytes ≡ whole free
    → ((target.kind ≡ s3) × (capacity_of target ≡ none))
      ⊎ ((target.kind ≡ filesystem)
          × ((c : TargetCapacity) × (capacity_of target ≡ some c) × IsDrawn (suc total) free c))
unfolding capacity_of
capacity_of-IsDrawn target total free t f = by_kind target.kind refl
  where
    by_kind :
        (kind : TargetKind)
        → target.kind ≡ kind
        → ((target.kind ≡ s3) × (capacity_of target ≡ none))
          ⊎ ((target.kind ≡ filesystem)
              × ((c : TargetCapacity) × (capacity_of target ≡ some c) × IsDrawn (suc total) free c))
    by_kind s3 k = inl (k, rw (k, capacity_of) refl)
    by_kind filesystem k = inr (
      k,
      (capacity_for total free, rw (k, t, f, capacity_of) refl, capacity_for-IsDrawn total free),
    )

-- ===== src/Format/NextRun/Search.antt =====
-- The loop over offsets that two cases of `nextRunOf` in web/src/lib/format.ts share.
use prox_back.Prelude.{
  ℕ, zero, suc, ◌+◌, ◌<◌, ◌≤◌, ◌≡◌, refl, ◌≢◌, sym, ◌∙◌, ℕ_discrete, dec_lt, Bool, true, false,
  some, arith, inl, inr, Bool-cases,
}
use mathlib.Core.Bool.{false≢true}
use prox_back.Format.Calendar.{Date, instant}
use prox_back.Format.NextRun.{first_from}

-- The first of the candidates from `from` on that passes.
pub record IsFirst (candidate : ℕ → Date) (passes : Date → Bool) (from : ℕ) (d : Date)
    : Type 0 where
  pub offset : ℕ
  pub starts : from ≤ offset
  pub is_candidate : d ≡ candidate offset
  pub does_pass : passes (candidate offset) ≡ true
  pub earlier_fail : (i : ℕ) → from ≤ i → i < offset → passes (candidate i) ≡ false

pub first_from-IsFirst :
    (rounds from : ℕ) (candidate : ℕ → Date) (passes : Date → Bool) (k : ℕ)
    → from ≤ k
    → k < from + rounds
    → passes (candidate k) ≡ true
    → (d : Date) × (first_from rounds from candidate passes ≡ some d)
      × IsFirst candidate passes from d
unfolding first_from
first_from-IsFirst zero from candidate passes k lo hi h = absurd (omega arith)
first_from-IsFirst (suc rounds) from candidate passes k lo hi h =
    elim (Bool-cases (passes (candidate from))) [
      | inl e ↦ (
        candidate from,
        rw (e, first_from),
        record {
          offset = from;
          starts = omega arith;
          is_candidate = refl;
          does_pass = e;
          earlier_fail = λ i p q. absurd (omega arith);
        },
      )
      | inr e ↦
          let beyond : from ≢ k = λ same. cc in
          let (d, found, first) =
            first_from-IsFirst rounds (suc from) candidate passes k (omega arith) (omega arith) h in
          (
            d,
            rw (e, first_from) found,
            record {
              offset = first.offset;
              starts = omega (arith, first.starts);
              is_candidate = first.is_candidate;
              does_pass = first.does_pass;
              earlier_fail = λ i p q. elim (ℕ_discrete i from) [
                | yes same ↦ rw same e
                | no other ↦ first.earlier_fail i (omega arith) q
              ];
            },
          )
    ]

-- The first date after `now` at which a schedule fires.
pub record IsLeast (Fires : Date → Type 0) (now d : Date) : Type 0 where
  pub fires : Fires d
  pub later : instant now < instant d
  pub least : (e : Date) → Fires e → instant now < instant e → instant d ≤ instant e

-- The first candidate that passes is the least, if the candidates come in order, those that pass are
-- later and fire, and every later firing is a candidate that passes.
pub IsFirst-IsLeast :
    (Fires : Date → Type 0) (now : Date) (candidate : ℕ → Date) (passes : Date → Bool) (d : Date)
    → ((i : ℕ)
        → passes (candidate i) ≡ true
        → Fires (candidate i) × (instant now < instant (candidate i)))
    → ((e : Date)
        → Fires e
        → instant now < instant e
        → (i : ℕ) × (instant e ≡ instant (candidate i)) × (passes (candidate i) ≡ true))
    → ((i j : ℕ) → i ≤ j → instant (candidate i) ≤ instant (candidate j))
    → IsFirst candidate passes 0 d
    → IsLeast Fires now d
IsFirst-IsLeast Fires now candidate passes d sound complete mono first =
    let s = sound first.offset first.does_pass in
    record {
      fires = rw first.is_candidate s.0;
      later = rw first.is_candidate s.1;
      least = λ e f l. rw first.is_candidate (bound e (complete e f l));
    }
  where
    bound :
        (e : Date)
        → (i : ℕ) × (instant e ≡ instant (candidate i)) × (passes (candidate i) ≡ true)
        → instant (candidate first.offset) ≤ instant e
    bound e (i, same, pass) = elim (dec_lt i first.offset) [
      | yes before ↦ absurd (false≢true (sym (first.earlier_fail i (omega arith) before) ∙ pass))
      | no after ↦ omega (arith, mono first.offset i (omega arith))
    ]

-- ===== src/Api/Retention/Summary.antt =====
-- `describeRetention` of web/src/api.ts beside `retentionRuleCount`.
use prox_back.Prelude.{
  ℕ, ◌≡◌, refl, ◌↔◌, ◌≢◌, sym, ap, ◌∙◌, Bool, true, false, List, [], ◌∷◌, ◌++◌, arith, inl, inr,
  Bool-cases, is_empty, ltb,
}
use prox_back.Js.Text.{Text, codes, join, print_nat}
use prox_back.Js.Text.Printing.{
  StartsWithDigit, print_nat-StartsWithDigit, StartsWithDigit-append, join-cons,
}
use prox_back.Js.Value.{Value}
use prox_back.Api.Policy.Highlights.{push_if}
use prox_back.Api.Retention.{
  RetentionPolicy, parse_retention, retention_rule_count, retention_parts, describe_retention,
}

-- A text that is not the beginning of "Keeps nothing", nor continues it.
abbrev IsRule : Text → Type 0
IsRule x = (t : Text) → x ++ t ≢ codes "Keeps nothing"

counted-IsRule : (n : ℕ) (label : Text) → IsRule (print_nat n ++ label)
counted-IsRule n label t e =
    digit_clash (print_nat n ++ label ++ t)
      (StartsWithDigit-append (print_nat n ++ label) t
        (StartsWithDigit-append (print_nat n) label (print_nat-StartsWithDigit n)))
      e
  where
    digit_clash : (s : Text) → StartsWithDigit s → s ≡ codes "Keeps nothing" → ⊥
    digit_clash [] h k = h
    digit_clash (c ∷ s) h k = ground arith

abbrev fifth : Text → ℕ
fifth (a ∷ b ∷ c ∷ d ∷ e ∷ s) = e
fifth _ = 0

last-IsRule : (n : ℕ) → IsRule (codes "Keep last " ++ print_nat n)
last-IsRule n t e = omega (arith, ap fifth e)

-- The list is empty or its first text is a rule.
abbrev AreRules : List Text → Type 0
AreRules [] = Unit
AreRules (x ∷ xs) = IsRule x

push_if-AreRules :
    (n : ℕ) (x : Text) (xs : List Text) → IsRule x → AreRules xs → AreRules (push_if (ltb 0 n) x xs)
push_if-AreRules n x xs h k = elim (Bool-cases (ltb 0 n)) [ inl e ↦ rw e h | inr e ↦ rw e k ]

retention_parts-AreRules : (r : RetentionPolicy) → AreRules (retention_parts r)
unfolding retention_parts
retention_parts-AreRules r = push_if-AreRules r.keep_last _ _ (last-IsRule r.keep_last) (
    push_if-AreRules r.keep_daily _ _ (counted-IsRule r.keep_daily _) (
      push_if-AreRules r.keep_weekly _ _ (counted-IsRule r.keep_weekly _) (
        push_if-AreRules r.keep_monthly _ _ (counted-IsRule r.keep_monthly _)
          (push_if-AreRules r.keep_yearly _ _ (counted-IsRule r.keep_yearly _) tt))))

is_empty-retention_parts :
    (r : RetentionPolicy) → (is_empty (retention_parts r) ≡ true) ↔ (retention_rule_count r ≡ 0)
unfolding retention_parts retention_rule_count
is_empty-retention_parts r = ground arith

join-ne :
    (xs : List Text)
    → is_empty xs ≡ false
    → AreRules xs
    → join (codes " · ") xs ≢ codes "Keeps nothing"
join-ne [] e h = cc
join-ne (x ∷ xs) e h =
    let (t, starts) = join-cons (codes " · ") x xs in λ same. h t (sym starts ∙ same)

-- The summary of any value is "Keeps nothing" exactly when the policy read from it has rule count 0.
pub describe_retention-nothing :
    (v : Value)
    → (describe_retention v ≡ codes "Keeps nothing")
      ↔ (retention_rule_count (parse_retention v) ≡ 0)
unfolding describe_retention
describe_retention-nothing v = elim (Bool-cases (is_empty (retention_parts (parse_retention v)))) [
  | inl e ↦ rw e (λ _. (is_empty-retention_parts (parse_retention v)).0 e, λ _. refl)
  | inr e ↦ rw e (
    λ same. absurd (
        join-ne (retention_parts (parse_retention v)) e
          (retention_parts-AreRules (parse_retention v)) same),
    λ none_left. absurd (false_of ((is_empty-retention_parts (parse_retention v)).1 none_left) e),
  )
]
  where
    false_of : {b : Bool} → b ≡ true → b ≡ false → ⊥
    false_of p q = cc

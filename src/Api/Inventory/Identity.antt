-- ===== src/Api/Inventory/Identity.antt =====
-- `sourceVMID` of web/src/api.ts on the ids that the server writes.
use prox_back.Prelude.{
  ℕ, zero, suc, ◌+◌, ◌-◌, ◌*◌, ◌/◌, ◌%◌, ◌<◌, ◌≡◌, refl, ◌∙◌, ap, true, false, [], ◌∷◌, ◌++◌, none,
  some, ◌==◌, ltb, all, is_empty, arith, Bool-cases, both_of_and, inl, inr,
}
use prox_back.Js.Text.{Text, codes, digits_from, print_nat}
use prox_back.Js.Number.{is_digit, scan_digits}
use prox_back.Api.Inventory.{after_underscore, digits_of, source_vmid}

is_digit_of : (k : ℕ) → is_digit (48 + k % 10) ≡ true
unfolding is_digit
is_digit_of k = ground arith

-- The digits that are put in front of a tail.
all-digits_from :
    (fuel n : ℕ) (tail : Text)
    → all is_digit tail ≡ true
    → all is_digit (digits_from fuel n tail) ≡ true
unfolding digits_from
all-digits_from zero n tail h = h
all-digits_from (suc fuel) n tail h = elim (Bool-cases (ltb n 10)) [
  | inl e ↦ rw (e, is_digit_of n) h
  | inr e ↦ rw e (all-digits_from fuel (n / 10) ((48 + n % 10) ∷ tail) (rw (is_digit_of n) h))
]

-- Reading the digits of a number gives the number, and reading goes on with the tail.
scan_digits-digits_from :
    (fuel n count : ℕ) (tail : Text)
    → n < fuel
    → (c : ℕ) × ((scan_digits 0 count (digits_from fuel n tail)).value
        ≡ (scan_digits n c tail).value)
unfolding digits_from scan_digits
scan_digits-digits_from zero n count tail h = absurd (omega arith)
scan_digits-digits_from (suc fuel) n count tail h = elim (Bool-cases (ltb n 10)) [
  | inl e ↦
      let small : 0 * 10 + (48 + n % 10 - 48) ≡ n = ground arith in
      (count + 1, rw (e, is_digit_of n) (ap (λ k. (scan_digits k (count + 1) tail).value) small))
  | inr e ↦
      let (c, same) =
        scan_digits-digits_from fuel (n / 10) count ((48 + n % 10) ∷ tail) (ground arith) in
      let whole : n / 10 * 10 + (48 + n % 10 - 48) ≡ n = omega arith in
      (c + 1, rw e (same ∙ rw (is_digit_of n) (ap (λ k. (scan_digits k (c + 1) tail).value) whole)))
]

no_underscore : (t : Text) → all is_digit t ≡ true → after_underscore t ≡ none
unfolding after_underscore is_digit
no_underscore [] h = refl
no_underscore (c ∷ s) h =
    let (digit, rest) = both_of_and (is_digit c) (all is_digit s) h in
    let other : (c == b'_') ≡ false = ground arith in rw (no_underscore s rest, other) refl

after_underscore-append :
    (s t : Text) → after_underscore t ≡ none → after_underscore (s ++ (codes "_" ++ t)) ≡ some t
unfolding after_underscore
after_underscore-append [] t h = rw h refl
after_underscore-append (c ∷ s) t h = rw (after_underscore-append s t h) refl

digits_from-ne-nil : (fuel n c : ℕ) (tail : Text) → is_empty (digits_from fuel n (c ∷ tail)) ≡ false
unfolding digits_from
digits_from-ne-nil zero n c tail = refl
digits_from-ne-nil (suc fuel) n c tail = elim (Bool-cases (ltb n 10)) [
  | inl e ↦ rw e refl
  | inr e ↦ rw e (digits_from-ne-nil fuel (n / 10) (48 + n % 10) (c ∷ tail))
]

print_nat-ne-nil : (n : ℕ) → is_empty (print_nat n) ≡ false
unfolding print_nat digits_from
print_nat-ne-nil n = elim (Bool-cases (ltb n 10)) [
  | inl e ↦ rw e refl
  | inr e ↦ rw e (digits_from-ne-nil n (n / 10) (48 + n % 10) [])
]

pub all-print_nat : (n : ℕ) → all is_digit (print_nat n) ≡ true
unfolding print_nat
all-print_nat n = all-digits_from (suc n) n [] refl

pub digits_of-print_nat : (n : ℕ) → digits_of (print_nat n) ≡ some n
unfolding digits_of
digits_of-print_nat n =
    let (c, same) = scan_digits-digits_from (suc n) n 0 [] (omega arith) in
    let value : (scan_digits 0 0 (print_nat n)).value ≡ n = unfold print_nat scan_digits in same in
    rw (print_nat-ne-nil n, all-print_nat n, value) refl

-- The source id that the server writes for a guest, which is a host id of any form, an underscore and
-- the VMID in decimal, is read back as that VMID; and a text of digits alone, without a host, names
-- none.
pub source_vmid-print_nat :
    (host : Text) (vmid : ℕ)
    → (source_vmid (host ++ (codes "_" ++ print_nat vmid)) ≡ some vmid)
      × (source_vmid (print_nat vmid) ≡ none)
unfolding source_vmid
source_vmid-print_nat host vmid =
    let none_there : after_underscore (print_nat vmid) ≡ none =
      no_underscore (print_nat vmid) (all-print_nat vmid) in
    (
      rw (after_underscore-append host (print_nat vmid) none_there, source_vmid)
          (digits_of-print_nat vmid),
      rw (none_there, source_vmid) refl,
    )

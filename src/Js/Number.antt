-- ===== src/Js/Number.antt =====
-- Numbers: `Number.isFinite`, `Math.round`, `Math.trunc`, and `Number(text)`. A finite number is an
-- exact fraction with its denominator less one, so the rounding of a decimal text to the nearest
-- double is left out; what is too large for a double is infinite.
pub mod Bounds
use prox_back.Prelude.{
  ℕ, zero, suc, ◌+◌, ◌-◌, ◌*◌, ◌/◌, ◌^◌, Bool, true, false, [], ◌∷◌, ◌&&◌, ◌||◌, ◌==◌, leb, ltb,
  if◌then◌else◌, is_empty, min, max, ℤ, pos, negsuc,
}
use prox_back.Js.Text.{Text, codes, same_text, trim}

pub data Number : Type 0 where
  nan infinity minus_infinity : Number
  finite : ℤ → ℕ → Number

abbrev pub whole : ℕ → Number
whole n = finite (pos n) 0

-- `Math.round(m / (d + 1))`, which is the floor of the number plus one half.
unfoldable pub round : ℤ → ℕ → ℤ
round (pos n) d = pos ((2 * n + suc d) / (2 * suc d))
round (negsuc n) d =
    if leb (2 * suc n) (suc d)
    then pos 0
    else negsuc ((2 * suc n - suc d + (2 * suc d - 1)) / (2 * suc d) - 1)

-- `Math.max(lo, Math.min(hi, z))` where `lo` and `hi` are not negative.
unfoldable pub clamp : ℕ → ℕ → ℤ → ℕ
clamp lo hi (pos n) = max lo (min hi n)
clamp lo hi (negsuc n) = lo

-- The whole part of m / (d + 1), as `Date` reads an argument.
unfoldable pub truncate : ℤ → ℕ → ℤ
truncate (pos n) d = pos (n / suc d)
truncate (negsuc n) d = if ltb n d then pos 0 else negsuc (suc n / suc d - 1)

unfoldable pub is_digit : ℕ → Bool
is_digit c = leb b'0' c && leb c b'9'

-- A run of digits: its value after `value`, the number of digits, and what follows.
pub record Digits : Type 0 where
  pub value : ℕ
  pub count : ℕ
  pub rest : Text

unfoldable pub scan_digits : ℕ → ℕ → Text → Digits
unfolding is_digit
scan_digits value count [] = record { value = value; count = count; rest = [] }
scan_digits value count (c ∷ s) =
    let more = scan_digits (value * 10 + (c - b'0')) (count + 1) s in
    if is_digit c then more else record { value = value; count = count; rest = c ∷ s }

-- The numerator `n` over 10 ^ `places`, with its sign.
signed : Bool → ℕ → ℕ → Number
signed negative zero places = whole 0
signed false (suc n) places = finite (pos (suc n)) (10 ^ places - 1)
signed true (suc n) places = finite (negsuc n) (10 ^ places - 1)

-- What rounds to a double that is infinite.
is_too_large : ℕ → ℕ → Bool
is_too_large n places = leb ((2 ^ 1024 - 2 ^ 970) * 10 ^ places) n

decimal : Bool → ℕ → ℕ → Number
unfolding signed is_too_large
decimal negative n places =
    if is_too_large n places
    then (if negative then minus_infinity else infinity)
    else signed negative n places

-- The digits of an exponent, which end the text.
exponent_digits : Bool → ℕ → ℕ → Bool → Text → Number
unfolding decimal scan_digits
exponent_digits negative n places down s =
    let e = scan_digits 0 0 s in
    if e.count == 0 || not_empty e.rest
    then nan
    else if down
    then decimal negative n (places + e.value)
    else decimal negative (n * 10 ^ e.value) places
  where
    not_empty : Text → Bool
    not_empty [] = false
    not_empty (c ∷ t) = true

-- What follows the digits of a decimal: nothing, or `e`, a sign and the exponent.
exponent : Bool → ℕ → ℕ → Text → Number
unfolding decimal exponent_digits
exponent negative n places [] = decimal negative n places
exponent negative n places (c ∷ s) = if c == b'e' || c == b'E' then sign s else nan
  where
    sign : Text → Number
    sign [] = nan
    sign (d ∷ t) =
        if d == b'-'
        then exponent_digits negative n places true t
        else if d == b'+'
        then exponent_digits negative n places false t
        else exponent_digits negative n places false (d ∷ t)

-- The part behind the digits in front of the point.
fraction : Bool → Digits → Text → Number
unfolding exponent scan_digits
fraction negative front [] = if front.count == 0 then nan else exponent negative front.value 0 []
fraction negative front (c ∷ s) =
    let back = scan_digits front.value 0 s in
    if c == b'.'
    then (if front.count + back.count == 0
        then nan
        else exponent negative back.value back.count back.rest)
    else if front.count == 0
    then nan
    else exponent negative front.value 0 (c ∷ s)

unsigned : Bool → Text → Number
unfolding fraction scan_digits same_text
unsigned negative s =
    let front = scan_digits 0 0 s in
    if same_text s (codes "Infinity")
    then (if negative then minus_infinity else infinity)
    else fraction negative front front.rest

-- The value of a digit in bases up to 16; 16 for anything else.
digit_value : ℕ → ℕ
digit_value c =
    if leb b'0' c && leb c b'9'
    then c - b'0'
    else if leb b'a' c && leb c b'f'
    then c - 87
    else if leb b'A' c && leb c b'F'
    then c - 55
    else 16

radix_digits : ℕ → ℕ → Text → Number
unfolding digit_value is_too_large
radix_digits base n [] = if is_too_large n 0 then infinity else whole n
radix_digits base n (c ∷ s) =
    let more = radix_digits base (n * base + digit_value c) s in
    if ltb (digit_value c) base then more else nan

-- A numeral without white space round it.
numeral : Text → Number
unfolding unsigned radix_digits
numeral [] = whole 0
numeral (c ∷ []) = unsigned false (c ∷ [])
numeral (c ∷ d ∷ s) =
    if c == b'-'
    then unsigned true (d ∷ s)
    else if c == b'+'
    then unsigned false (d ∷ s)
    else if c == b'0' && (d == b'x' || d == b'X')
    then radix s 16
    else if c == b'0' && (d == b'o' || d == b'O')
    then radix s 8
    else if c == b'0' && (d == b'b' || d == b'B')
    then radix s 2
    else unsigned false (c ∷ d ∷ s)
  where
    radix : Text → ℕ → Number
    radix [] base = nan
    radix (e ∷ t) base = radix_digits base 0 (e ∷ t)

-- `Number(text)`.
unfoldable pub number_of_text : Text → Number
unfolding numeral trim
number_of_text s = numeral (trim s)

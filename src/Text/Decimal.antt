-- ===== src/Text/Decimal.antt =====
-- `strconv.ParseUint(s, 10, w)` and `strconv.FormatUint` of package `strconv`.
pub mod Digits
use systemboot.Base.{
  ℕ, suc, zero, ◌+◌, ◌-◌, ◌*◌, ◌/◌, ◌%◌, ◌^◌, Bool, ◌&&◌, List, [], ◌∷◌, ◌++◌, leb, ltb,
  if◌then◌else◌, Bytes, Outcome, ok, err, parse_uint_syntax, parse_uint_range,
}

unfoldable pub is_digit : ℕ → Bool
is_digit c = leb b'0' c && leb c b'9'

-- The loop over the digits; the value must stay below the bound.
unfoldable pub parse_digits : Bytes → ℕ → ℕ → Bytes → Outcome ℕ
unfolding is_digit
parse_digits whole bound n [] = ok n
parse_digits whole bound n (c ∷ s) =
    let rest = parse_digits whole bound (n * 10 + (c - b'0')) s in
    if is_digit c
    then (if ltb (n * 10 + (c - b'0')) bound then rest else err (parse_uint_range whole))
    else err (parse_uint_syntax whole)

-- `strconv.ParseUint(s, 10, w)`, by the bound 2 ^ w.
unfoldable pub parse_uint : ℕ → Bytes → Outcome ℕ
unfolding parse_digits
parse_uint bound [] = err (parse_uint_syntax [])
parse_uint bound (c ∷ s) = parse_digits (c ∷ s) bound 0 (c ∷ s)

-- The decimal digits of a number, in front of what follows; `fuel` bounds how many there are.
unfoldable pub digits_onto : ℕ → ℕ → Bytes → Bytes
digits_onto zero n rest = rest
digits_onto (suc fuel) n rest =
    let more = digits_onto fuel (n / 10) ((b'0' + n % 10) ∷ rest) in
    if ltb n 10 then (b'0' + n) ∷ rest else more

-- `strconv.FormatUint(n, 10)`: a number has at most n + 1 digits.
unfoldable pub format_uint : ℕ → Bytes
unfolding digits_onto
format_uint n = digits_onto (suc n) n []

-- The verb `%04d` of `fmt`, for a number below 10000.
unfoldable pub pad4 : ℕ → Bytes
pad4 n =
    (b'0' + n / 1000 % 10) ∷ (b'0' + n / 100 % 10) ∷ (b'0' + n / 10 % 10) ∷ (b'0' + n % 10) ∷ []

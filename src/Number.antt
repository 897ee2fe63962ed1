-- ===== src/Number.antt =====
-- Whole numbers as texts: `%d` of fmt, and strconv.ParseInt with base 10 and 64 bits.
pub mod RoundTrip
mod Tests
use flo_mimi.Prelude.{
  ℕ, suc, ◌+◌, ◌-◌, ◌*◌, Bool, true, false, ◌&&◌, [], ◌∷◌, Option, none, some, Text, leb, ◌==◌,
  if◌then◌else◌,
}
use flo_mimi.Prelude.Int.{ℤ, pos, negsuc, signed, fits_int64}
use flo_mimi.Clock.{decimal}

-- `%d`
unfoldable pub format_int : ℤ → Text
unfolding decimal
format_int (pos n) = decimal n
format_int (negsuc n) = b'-' ∷ decimal (suc n)

abbrev pub is_digit : ℕ → Bool
is_digit c = leb b'0' c && leb c b'9'

-- The digits, read from the left after `n`.
unfoldable pub parse_digits : ℕ → Text → Option ℕ
parse_digits n [] = some n
parse_digits n (c ∷ s) =
    let rest = parse_digits (n * 10 + (c - b'0')) s in if is_digit c then rest else none

unfoldable pub parse_magnitude : Text → Option ℕ
unfolding parse_digits
parse_magnitude [] = none
parse_magnitude (c ∷ s) = parse_digits 0 (c ∷ s)

-- A magnitude with its sign, if it is in range.
abbrev pub in_range : Bool → Option ℕ → Option ℤ
in_range negative none = none
in_range negative (some n) = if fits_int64 negative n then some (signed negative n) else none

-- strconv.ParseInt(s, 10, 64); its error is `none`.
unfoldable pub parse_int : Text → Option ℤ
unfolding parse_magnitude
parse_int [] = none
parse_int (c ∷ s) =
    if c == b'-'
    then in_range true (parse_magnitude s)
    else if c == b'+'
    then in_range false (parse_magnitude s)
    else in_range false (parse_magnitude (c ∷ s))

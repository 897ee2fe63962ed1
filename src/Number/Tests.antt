-- ===== src/Number/Tests.antt =====
-- The round trip of numbers at concrete ones.
use flo_mimi.Prelude.{◌≡◌, refl, some, true, none, codes}
use flo_mimi.Prelude.Int.{pos, negsuc}
use flo_mimi.Clock.{decimal, write_digits}
use flo_mimi.Number.{format_int, parse_int, parse_digits, parse_magnitude}
use flo_mimi.Number.RoundTrip.{fits, parse_int-format_int, parse_int-fits}

formatted : format_int (negsuc 1204) ≡ codes "-1205"
unfolding format_int decimal write_digits
formatted = refl

out_of_range : parse_int (codes "9223372036854775808") ≡ none
unfolding parse_int parse_magnitude parse_digits
out_of_range = refl

parse_int-format_int_test : parse_int (format_int (negsuc 1204)) ≡ some (negsuc 1204)
parse_int-format_int_test = parse_int-format_int (negsuc 1204) refl

parse_int-fits_test : fits (pos 6400) ≡ true
unfolding parse_int parse_magnitude parse_digits
parse_int-fits_test = parse_int-fits (codes "+6400") refl

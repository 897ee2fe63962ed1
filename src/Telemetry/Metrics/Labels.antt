-- ===== src/Telemetry/Metrics/Labels.antt =====
-- The labels that are valid UTF-8.
use flo_mimi.Prelude.{
  List, ℕ, zero, suc, ◌/◌, true, [], ◌∷◌, ◌≡◌, refl, inl, inr, arith, Text, leb, is_utf8,
  Bool-cases,
}
use flo_mimi.Telemetry.Metrics.Agreement.{all_utf8}
use flo_mimi.Clock.{digit, write_digits, decimal}

digit-is_utf8 : (n : ℕ) (out : Text) → is_utf8 out ≡ true → is_utf8 (digit n ∷ out) ≡ true
unfolding is_utf8
digit-is_utf8 n out h = ground (arith, h)

write_digits-is_utf8 :
    (fuel n : ℕ) (out : Text) → is_utf8 out ≡ true → is_utf8 (write_digits fuel n out) ≡ true
unfolding write_digits
write_digits-is_utf8 zero n out h = h
write_digits-is_utf8 (suc fuel) n out h = elim (Bool-cases (leb n 9)) [
  | inl e ↦ rw e (digit-is_utf8 n out h)
  | inr e ↦ rw e (write_digits-is_utf8 fuel (n / 10) (digit n ∷ out) (digit-is_utf8 n out h))
]

-- A number is printed in ASCII.
pub decimal-is_utf8 : (n : ℕ) → is_utf8 (decimal n) ≡ true
unfolding decimal is_utf8
decimal-is_utf8 n = write_digits-is_utf8 (suc n) n [] refl

pub all_utf8-cons :
    (value : Text) (values : List Text)
    → is_utf8 value ≡ true
    → all_utf8 values ≡ true
    → all_utf8 (value ∷ values) ≡ true
unfolding all_utf8
all_utf8-cons value values h hs = rw (h, hs) refl

-- The labels of a duration are those of a count, less the last one.
pub all_utf8-four :
    (a b c d e : Text)
    → all_utf8 (a ∷ b ∷ c ∷ d ∷ e ∷ []) ≡ true
    → all_utf8 (a ∷ b ∷ c ∷ d ∷ []) ≡ true
unfolding all_utf8
all_utf8-four a b c d e h = ground (arith, h)

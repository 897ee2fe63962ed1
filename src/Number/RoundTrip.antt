-- ===== src/Number/RoundTrip.antt =====
-- Reading back a number that was printed, and the range of what is read.
use flo_mimi.Prelude.{
  some-same, ℕ, zero, suc, ◌+◌, ◌-◌, ◌*◌, ◌/◌, ◌%◌, ◌<◌, Bool, true, false, [], ◌∷◌, Option, none,
  some, ◌≡◌, ◌≢◌, refl, sym, ap, ◌∙◌, arith, Text, leb, ◌==◌, Bool-cases, inl, inr,
}
use mathlib.Core.Path.{subst}
use flo_mimi.Prelude.Int.{ℤ, pos, negsuc, signed, fits_int64}
use flo_mimi.Clock.{decimal, digit, write_digits}
use flo_mimi.Number.{format_int, is_digit, parse_digits, parse_magnitude, in_range, parse_int}

-- A digit that is read adds itself behind what was read.
parse_digits-digit :
    (front n : ℕ) (out : Text)
    → parse_digits front (digit n ∷ out) ≡ parse_digits (front * 10 + n % 10) out
unfolding parse_digits
parse_digits-digit front n out =
    let c : is_digit (digit n) ≡ true = ground arith in
    let v : digit n - b'0' ≡ n % 10 = omega arith in rw (c, v)

-- The digits of `n` in front of a text are read as `n` before it is.
parse_digits-write_digits :
    (fuel n : ℕ) (out : Text)
    → n < fuel
    → parse_digits 0 (write_digits fuel n out) ≡ parse_digits n out
unfolding write_digits
parse_digits-write_digits zero n out h = absurd (omega (arith, h))
parse_digits-write_digits (suc fuel) n out h = elim (Bool-cases (leb n 9)) [
  | inl small ↦
      let e : 0 * 10 + n % 10 ≡ n = ground arith in
      rw small (parse_digits-digit 0 n out ∙ ap (λ k. parse_digits k out) e)
  | inr large ↦
      let e : n / 10 * 10 + n % 10 ≡ n = omega arith in
      let b : n / 10 < fuel = ground arith in
      rw large (
        parse_digits-write_digits fuel (n / 10) (digit n ∷ out) b
        ∙ (parse_digits-digit (n / 10) n out ∙ ap (λ k. parse_digits k out) e))
]

-- A number is printed as at least one digit, and nothing but a digit comes first.
write_digits-head :
    (fuel n : ℕ) (out : Text)
    → n < fuel
    → (c : ℕ) × (s : Text) × (write_digits fuel n out ≡ c ∷ s) × (is_digit c ≡ true)
unfolding write_digits
write_digits-head zero n out h = absurd (omega (arith, h))
write_digits-head (suc fuel) n out h = elim (Bool-cases (leb n 9)) [
  | inl small ↦ (digit n, out, rw small, ground arith)
  | inr large ↦
      let b : n / 10 < fuel = ground arith in
      let (c, s, e, d) = write_digits-head fuel (n / 10) (digit n ∷ out) b in (c, s, rw large e, d)
]

decimal-head : (n : ℕ) → (c : ℕ) × (s : Text) × (decimal n ≡ c ∷ s) × (is_digit c ≡ true)
unfolding decimal
decimal-head n = write_digits-head (suc n) n [] (omega arith)

parse_digits-decimal : (n : ℕ) → parse_digits 0 (decimal n) ≡ some n
unfolding decimal parse_digits
parse_digits-decimal n = parse_digits-write_digits (suc n) n [] (omega arith)

parse_magnitude-decimal : (n : ℕ) → parse_magnitude (decimal n) ≡ some n
unfolding parse_magnitude
parse_magnitude-decimal n =
    let (c, s, e, d) = decimal-head n in rw e (sym (ap (parse_digits 0) e) ∙ parse_digits-decimal n)

unsigned :
    (s : Text) (c : ℕ) (t : Text)
    → s ≡ c ∷ t
    → is_digit c ≡ true
    → parse_int s ≡ in_range false (parse_magnitude s)
unfolding parse_int
unsigned s c t e d =
    let m : c == b'-' ≡ false = ground arith in
    let p : c == b'+' ≡ false = ground arith in rw (e, m, p)

-- The range of an int64.
abbrev pub fits : ℤ → Bool
fits (pos n) = fits_int64 false n
fits (negsuc n) = fits_int64 true (suc n)

neg-suc : (n : ℕ) → signed true (suc n) ≡ negsuc n
neg-suc n = ground arith

none-not-some : {a : ℤ} → none ≢ some a
none-not-some h = cc

-- An int64 that was printed is read back.
pub parse_int-format_int : (n : ℤ) → fits n ≡ true → parse_int (format_int n) ≡ some n
unfolding format_int parse_int
parse_int-format_int (pos n) h =
    let (c, s, e, d) = decimal-head n in
    unsigned (decimal n) c s e d ∙ rw (parse_magnitude-decimal n, h)
parse_int-format_int (negsuc n) h = rw (parse_magnitude-decimal (suc n), h) (ap some (neg-suc n))

fits-signed :
    (negative : Bool) (k : ℕ) → fits_int64 negative k ≡ true → fits (signed negative k) ≡ true
fits-signed true zero h = refl
fits-signed true (suc k) h = subst (λ n. fits n ≡ true) (sym (neg-suc k)) h
fits-signed false k h = h

in_range-fits :
    (negative : Bool) (m : Option ℕ) {n : ℤ} → in_range negative m ≡ some n → fits n ≡ true
in_range-fits negative none h = cc
in_range-fits negative (some k) {n} h = elim (Bool-cases (fits_int64 negative k)) [
  | inl f ↦ subst (λ r. fits r ≡ true) (some-same (rw f at h)) (fits-signed negative k f)
  | inr f ↦ absurd (none-not-some (rw f at h))
]

-- What is read is in the range of an int64.
pub parse_int-fits : (s : Text) {n : ℤ} → parse_int s ≡ some n → fits n ≡ true
unfolding parse_int
parse_int-fits [] h = cc
parse_int-fits (c ∷ s) h = elim (Bool-cases (c == b'-')) [
  | inl m ↦ in_range-fits true (parse_magnitude s) (rw m at h)
  | inr m ↦ elim (Bool-cases (c == b'+')) [
    | inl p ↦ in_range-fits false (parse_magnitude s) (rw p at (rw m at h))
    | inr p ↦ in_range-fits false (parse_magnitude (c ∷ s)) (rw p at (rw m at h))
  ]
]

-- ===== src/Clock.antt =====
-- The clock and the random source, as the program reads them: `time.Time` in UTC with its two
-- formats, and `crypto/rand` with the identifiers made from it.
use flo_mimi.Prelude.{
  ℕ, zero, suc, ◌+◌, ◌-◌, ◌/◌, ◌%◌, [], ◌∷◌, ◌++◌, List, Text, leb, if◌then◌else◌,
}

pub record Time : Type 0 where
  pub year : ℕ
  pub month : ℕ
  pub day : ℕ
  pub hour : ℕ
  pub minute : ℕ
  pub second : ℕ

abbrev pub digit : ℕ → ℕ
digit n = b'0' + n % 10

abbrev pub two_digits : ℕ → Text
two_digits n = digit (n / 10) ∷ digit n ∷ []

abbrev pub four_digits : ℕ → Text
four_digits n = two_digits (n / 100) ++ two_digits n

-- now.UTC().Format("20060102150405")
unfoldable pub compact : Time → Text
compact t =
    four_digits t.year
    ++ (two_digits t.month
        ++ (two_digits t.day
            ++ (two_digits t.hour ++ (two_digits t.minute ++ two_digits t.second))))

-- now.UTC().Format(time.RFC3339)
unfoldable pub rfc3339 : Time → Text
rfc3339 t =
    four_digits t.year
    ++ (b'-'
        ∷ (two_digits t.month
            ++ (b'-'
                ∷ (two_digits t.day
                    ++ (b'T'
                        ∷ (two_digits t.hour
                            ++ (b':'
                                ∷ (two_digits t.minute
                                    ++ (b':' ∷ (two_digits t.second ++ (b'Z' ∷ [])))))))))))

-- `%d` of a number: `fuel` bounds the digits, and a number has fewer digits than its successor counts.
unfoldable pub write_digits : ℕ → ℕ → Text → Text
write_digits zero n out = out
write_digits (suc fuel) n out =
    let rest = write_digits fuel (n / 10) (digit n ∷ out) in if leb n 9 then digit n ∷ out else rest

unfoldable pub decimal : ℕ → Text
unfolding write_digits
decimal n = write_digits (suc n) n []

-- What `rand.Read` fills the six bytes with, or the `UnixNano` read after its failure.
pub data Entropy : Type 0 where
  bytes : List ℕ → Entropy
  failed : ℕ → Entropy

abbrev pub hex_digit : ℕ → ℕ
hex_digit n = if leb n 9 then b'0' + n else b'a' + (n - 10)

-- hex.EncodeToString
unfoldable pub hex : List ℕ → Text
hex [] = []
hex (b ∷ bs) = hex_digit (b / 16) ∷ hex_digit (b % 16) ∷ hex bs

unfoldable pub new_id : Text → Entropy → Text
unfolding hex decimal
new_id prefix (bytes buffer) = prefix ++ (b'-' ∷ hex buffer)
new_id prefix (failed nanos) = prefix ++ (b'-' ∷ decimal nanos)

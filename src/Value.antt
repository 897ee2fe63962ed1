-- ===== src/Value.antt =====
-- The Go values that an `any` of the program holds: what encoding/json decodes into one, and the
-- other number types that the type switches of the program name.
use flo_mimi.Prelude.{ℕ, Bool, Text, Option, none, some, if◌then◌else◌, same}
use flo_mimi.Prelude.Int.{ℤ}

-- A finite float64, exactly: ± mantissa · 2 ^ exponent. JSON has no infinities and no NaN.
pub record Float : Type 0 where
  pub negative : Bool
  pub mantissa : ℕ
  pub exponent : ℤ

mutual
  pub data Value : Type 0 where
    null : Value
    bool : Bool → Value
    string : Text → Value
    float64 : Float → Value
    float32 : Float → Value
    int : ℤ → Value
    int64 : ℤ → Value
    number : Text → Value
    array : Values → Value
    object : Fields → Value

  pub data Values : Type 0 where
    end : Values
    item : Value → Values → Values

  pub data Fields : Type 0 where
    done : Fields
    field : Text → Value → Fields → Fields

-- A `map[string]any`: `none` is the nil map. Its keys are distinct.
abbrev pub Metadata : Type 0
Metadata = Option Fields

-- `value, ok := m[key]`
unfoldable pub lookup : Text → Fields → Option Value
lookup key done = none
lookup key (field k v m) = if same key k then some v else lookup key m

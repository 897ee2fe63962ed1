-- ===== src/Content/Metadata.antt =====
-- The readers of a command's metadata, and the defaults that stand in for what it lacks.
use flo_mimi.Prelude.{
  ℕ, suc, ◌-◌, ◌*◌, ◌/◌, ◌^◌, Bool, ◌&&◌, ◌||◌, not, [], ◌∷◌, ◌++◌, List, map, Option, none, some,
  Text, codes, same, is_blank, leb, ◌==◌, if◌then◌else◌,
}
use flo_mimi.Prelude.Int.{ℤ, pos, negsuc, signed, fits_int64, min_int64}
use flo_mimi.Text.{trim_space, is_space}
use flo_mimi.Slug
use flo_mimi.Clock.{Time, compact}
use flo_mimi.Value.{
  Float, Value, Values, string, float64, float32, int, int64, array, end, item, Metadata, lookup,
}
use flo_mimi.Command.{Command}

unfoldable pub slugify : Text → Text
unfolding Slug.slugify
slugify value = Slug.slugify value

unfoldable pub first_non_empty : List Text → Text
first_non_empty [] = []
first_non_empty (value ∷ values) =
    if is_blank (trim_space value) then first_non_empty values else trim_space value

-- `value, ok := metadata[key]` on a map that may be nil.
unfoldable pub get : Metadata → Text → Option Value
unfolding lookup
get none key = none
get (some m) key = lookup key m

-- The string that a value is, if it is one, trimmed; blank otherwise.
unfoldable pub trimmed_string : Value → Text
trimmed_string (string text) = trim_space text
trimmed_string _ = []

abbrev pub or_fallback : Text → Text → Text
or_fallback text fallback = if is_blank text then fallback else text

unfoldable pub metadata_string : Metadata → Text → Text → Text
unfolding get trimmed_string
metadata_string metadata key fallback = elim (get metadata key) [
  | none ↦ fallback
  | some value ↦ or_fallback (trimmed_string value) fallback
]

-- `int(value)` of a float: the fraction is cut. A value outside the range of an int64, where Go
-- leaves the result to the implementation, gives what amd64 gives.
unfoldable pub truncate : Float → ℤ
truncate f =
    let n : ℕ = elim f.exponent [
      | pos e ↦ f.mantissa * 2 ^ e
      | negsuc e ↦ f.mantissa / 2 ^ suc e
    ] in
    if fits_int64 f.negative n then signed f.negative n else min_int64

unfoldable pub int_or : Option Value → ℤ → ℤ
unfolding truncate
int_or none fallback = fallback
int_or (some (float64 f)) fallback = truncate f
int_or (some (float32 f)) fallback = truncate f
int_or (some (int n)) fallback = n
int_or (some (int64 n)) fallback = n
int_or (some _) fallback = fallback

unfoldable pub metadata_int : Metadata → Text → ℤ → ℤ
unfolding get int_or
metadata_int metadata key fallback = int_or (get metadata key) fallback

-- The strings of an array, trimmed, the blank ones left out.
unfoldable pub strings : Values → List Text
unfolding trimmed_string
strings end = []
strings (item v vs) =
    if is_blank (trimmed_string v) then strings vs else trimmed_string v ∷ strings vs

abbrev pub or_fallbacks : List Text → List Text → List Text
or_fallbacks [] fallback = fallback
or_fallbacks (t ∷ ts) fallback = t ∷ ts

unfoldable pub strings_or : Option Value → List Text → List Text
unfolding strings
strings_or (some (array vs)) fallback = or_fallbacks (strings vs) fallback
strings_or _ fallback = fallback

unfoldable pub metadata_strings : Metadata → Text → List Text → List Text
unfolding get strings_or
metadata_strings metadata key fallback = strings_or (get metadata key) fallback

-- The separators of `strings.Title`. Beyond ASCII only blanks are: the one action whose title the
-- program asks for is ASCII.
abbrev is_separator : ℕ → Bool
is_separator c =
    if leb c 0x7f
    then not (
        (leb b'0' c && leb c b'9')
        || (leb b'a' c && leb c b'z')
        || (leb b'A' c && leb c b'Z')
        || c == b'_')
    else is_space c

abbrev to_title : ℕ → ℕ
to_title c = if leb b'a' c && leb c b'z' then c - 32 else c

unfoldable pub title_from : ℕ → Text → Text
unfolding is_space
title_from previous [] = []
title_from previous (c ∷ s) = (if is_separator previous then to_title c else c) ∷ title_from c s

unfoldable pub default_campaign_title : Text → Text
unfolding title_from
default_campaign_title action = title_from b' ' (
    map (λ c. if c == b'-' then b' ' else c)
      (or_fallback (trim_space action) (codes "campaign-brief")))

unfoldable pub generated_subscriber_email : Text → Text
generated_subscriber_email subscriber_id = subscriber_id ++ codes "@curator.local"

unfoldable pub build_entity_id : Text → Time → Text
build_entity_id prefix now = prefix ++ (b'-' ∷ compact now)

-- strings.Split(s, "@")[0], which is the text itself where there is no "@".
unfoldable pub before_at : Text → Text
before_at [] = []
before_at (c ∷ s) = if c == b'@' then [] else c ∷ before_at s

-- The loop over the candidates: the first one with a slug.
unfoldable pub first_slug : List Text → Option Text
unfolding before_at slugify
first_slug [] = none
first_slug (candidate ∷ candidates) =
    let rest = first_slug candidates in
    let slug = slugify (before_at candidate) in
    if same candidate [] || same candidate (codes "new-subscriber")
    then rest
    else if is_blank slug
    then rest
    else some slug

unfoldable pub resolve_subscriber_id : Command → Time → Text
unfolding first_slug build_entity_id metadata_string
resolve_subscriber_id command now =
    elim (first_slug (
      trim_space command.subject_id
      ∷ metadata_string command.metadata (codes "subscriberId") []
      ∷ metadata_string command.metadata (codes "email") []
      ∷ metadata_string command.metadata (codes "name") []
      ∷ [])) [ none ↦ build_entity_id (codes "subscriber") now | some slug ↦ slug ]

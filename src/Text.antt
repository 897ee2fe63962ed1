-- ===== src/Text.antt =====
-- The functions of Go's `strings` and `unicode` that the program calls.
pub mod Trim
use flo_mimi.Prelude.{
  ℕ, ◌+◌, Bool, true, false, ◌&&◌, ◌||◌, List, [], ◌∷◌, ◌++◌, map, Option, none, some, Text, same,
  ◌==◌, leb, if◌then◌else◌, ◌≡◌, refl,
}

-- unicode.IsSpace
unfoldable pub is_space : ℕ → Bool
is_space c =
    (leb 9 c && leb c 13)
    || c == 32
    || c == 0x85
    || c == 0xa0
    || c == 0x1680
    || (leb 0x2000 c && leb c 0x200a)
    || c == 0x2028
    || c == 0x2029
    || c == 0x202f
    || c == 0x205f
    || c == 0x3000

-- unicode.ToLower, exact on the runes whose image is ASCII: the ASCII letters, U+0130 (to i) and
-- U+212A (to k). The case of other runes is left alone: the program lowers a text only to keep the
-- ASCII letters and digits of it.
unfoldable pub to_lower : ℕ → ℕ
to_lower c =
    if leb b'A' c && leb c b'Z'
    then c + 32
    else if c == 0x130
    then b'i'
    else if c == 0x212a
    then b'k'
    else c

module _ (p : ℕ → Bool) where
  unfoldable pub trim_left : Text → Text
  trim_left [] = []
  trim_left (c ∷ s) = if p c then trim_left s else c ∷ s

  abbrev pub keep : ℕ → Text → Text
  keep c [] = if p c then [] else c ∷ []
  keep c (d ∷ s) = c ∷ d ∷ s

  unfoldable pub trim_right : Text → Text
  trim_right [] = []
  trim_right (c ∷ s) = keep c (trim_right s)

  -- strings.TrimFunc
  unfoldable pub trim : Text → Text
  unfolding trim_left trim_right
  trim s = trim_right (trim_left s)

-- strings.TrimSpace
unfoldable pub trim_space : Text → Text
unfolding trim is_space
trim_space = trim is_space

-- strings.HasPrefix(s, p) with the prefix first
unfoldable pub has_prefix : Text → Text → Bool
has_prefix [] s = true
has_prefix (c ∷ p) [] = false
has_prefix (c ∷ p) (d ∷ s) = c == d && has_prefix p s

-- strings.HasSuffix(s, p) with the suffix first
unfoldable pub has_suffix : Text → Text → Bool
has_suffix p [] = same [] p
has_suffix p (c ∷ s) = let shorter = has_suffix p s in same (c ∷ s) p || shorter

-- ===== src/Slug.antt =====
-- `slugify` of platform/internal/application/interactions/service.go. The packages adapters/gateway
-- and adapters/content carry the same function, line for line.
pub mod Shape
pub mod Words
mod Tests
use flo_mimi.Prelude.{
  ℕ, Bool, true, false, not, ◌&&◌, ◌||◌, [], ◌∷◌, ◌++◌, map, Text, ◌==◌, leb, if◌then◌else◌,
}
use flo_mimi.Text.{to_lower, trim, trim_space}

-- The two ranges of the first case.
unfoldable pub is_slug_rune : ℕ → Bool
is_slug_rune c = (leb b'a' c && leb c b'z') || (leb b'0' c && leb c b'9')

-- One round of the loop: what it writes, and the new `lastHyphen`.
unfoldable pub write_rune : Bool → ℕ → Text × Bool
unfolding is_slug_rune
write_rune last_hyphen c =
    if is_slug_rune c
    then (c ∷ [], false)
    else if not last_hyphen
    then (b'-' ∷ [], true)
    else ([], last_hyphen)

unfoldable pub write_runes : Bool → Text → Text
unfolding write_rune
write_runes last_hyphen [] = []
write_runes last_hyphen (c ∷ s) =
    (write_rune last_hyphen c).0 ++ write_runes (write_rune last_hyphen c).1 s

abbrev pub is_hyphen : ℕ → Bool
is_hyphen c = c == b'-'

unfoldable pub slugify : Text → Text
unfolding write_runes to_lower trim trim_space
slugify value = trim is_hyphen (write_runes false (map to_lower (trim_space value)))

-- ===== src/Slug/Tests.antt =====
-- Runs of `slugify`, and its theorems at them.
use flo_mimi.Prelude.{◌≡◌, refl, Text, codes, map, [], ◌∷◌}
use flo_mimi.Text.{to_lower}
use flo_mimi.Slug.{slugify}
use flo_mimi.Slug.Shape.{IsSlug, slugify-IsSlug, slugify-slugify}
use flo_mimi.Slug.Words.{words, join, slugify-words}

abbrev headline : Text
headline = codes "  Spring -- Launch, 2026!"

slug_of_headline : slugify headline ≡ codes "spring-launch-2026"
unfolding slugify
slug_of_headline = refl

slug_of_signs : slugify (codes " ?! ") ≡ []
unfolding slugify
slug_of_signs = refl

-- The Kelvin sign is lowered to an ASCII letter.
slug_of_kelvin : slugify (0x212a ∷ b'9' ∷ []) ≡ codes "k9"
unfolding slugify
slug_of_kelvin = refl

slugify-IsSlug_test : IsSlug (slugify headline)
slugify-IsSlug_test = slugify-IsSlug headline

slugify-slugify_test : slugify (slugify headline) ≡ slugify headline
slugify-slugify_test = slugify-slugify headline

slugify-words_example : slugify headline ≡ join (words (map to_lower headline))
slugify-words_example = slugify-words headline

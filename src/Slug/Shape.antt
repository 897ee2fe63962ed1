-- ===== src/Slug/Shape.antt =====
-- The shape of a slug: lower-case ASCII letters, digits and single hyphens between them.
use flo_mimi.Prelude.{
  ℕ, Bool, true, false, ◌||◌, [], ◌∷◌, map, ◌≡◌, refl, arith, Text, All, All-mono, Bool-cases, inl,
  inr,
}
use flo_mimi.Text.{to_lower, trim_left, trim_right, trim_space, keep, is_space}
use flo_mimi.Text.Trim.{HeadIsNot, IsTrimmed, trim-IsTrimmed, trim_id, trim-All, All-IsTrimmed}
use flo_mimi.Slug.{is_slug_rune, write_runes, is_hyphen, slugify}

abbrev pub SlugRune : ℕ → Type 0
SlugRune c = is_slug_rune c || is_hyphen c ≡ true

-- No two hyphens stand side by side.
abbrev pub SinglyHyphened : Text → Type 0
SinglyHyphened [] = Unit
SinglyHyphened (c ∷ []) = Unit
SinglyHyphened (c ∷ d ∷ s) = (is_hyphen c ≡ true → is_hyphen d ≡ false) × SinglyHyphened (d ∷ s)

pub record IsSlug (s : Text) : Type 0 where
  pub runes : All SlugRune s
  pub singly : SinglyHyphened s
  pub trimmed : IsTrimmed is_hyphen s

-- What the loop has written when `lastHyphen` is as given before it.
abbrev pub StartsAfter : Bool → Text → Type 0
StartsAfter true s = HeadIsNot is_hyphen s
StartsAfter false s = Unit

write_runes-All : (last : Bool) (s : Text) → All SlugRune (write_runes last s)
unfolding write_runes
write_runes-All last [] = tt
write_runes-All last (c ∷ s) = ground (arith, write_runes-All true s, write_runes-All false s)

pub write_runes-StartsAfter : (last : Bool) (s : Text) → StartsAfter last (write_runes last s)
unfolding write_runes
write_runes-StartsAfter false s = tt
write_runes-StartsAfter true [] = tt
write_runes-StartsAfter true (c ∷ s) = ground (arith, write_runes-StartsAfter true s)

cons-SinglyHyphened :
    (c : ℕ) (s : Text)
    → (is_hyphen c ≡ true → HeadIsNot is_hyphen s)
    → SinglyHyphened s
    → SinglyHyphened (c ∷ s)
cons-SinglyHyphened c [] _ _ = tt
cons-SinglyHyphened c (d ∷ s) f h = (f, h)

write_runes-SinglyHyphened : (last : Bool) (s : Text) → SinglyHyphened (write_runes last s)
unfolding write_runes
write_runes-SinglyHyphened last [] = tt
write_runes-SinglyHyphened last (c ∷ s) = ground (
  arith,
  cons-SinglyHyphened c (write_runes false s),
  cons-SinglyHyphened b'-' (write_runes true s),
  write_runes-SinglyHyphened true s,
  write_runes-SinglyHyphened false s,
  write_runes-StartsAfter true s,
)

-- Trimming keeps runs of hyphens single.
trim_left-SinglyHyphened :
    (p : ℕ → Bool) (s : Text) → SinglyHyphened s → SinglyHyphened (trim_left p s)
unfolding trim_left
trim_left-SinglyHyphened p [] _ = tt
trim_left-SinglyHyphened p (c ∷ []) _ = ground arith
trim_left-SinglyHyphened p (c ∷ d ∷ s) h = elim (Bool-cases (p c)) [
  | inl e ↦ rw e (trim_left-SinglyHyphened p (d ∷ s) h.1)
  | inr e ↦ rw e h
]

-- A right trim only cuts, so it keeps every rune that is left before the same next rune.
trim_right-HeadIsNot : (p q : ℕ → Bool) (s : Text) → HeadIsNot q s → HeadIsNot q (trim_right p s)
unfolding trim_right
trim_right-HeadIsNot p q [] _ = tt
trim_right-HeadIsNot p q (c ∷ s) h = keep-HeadIsNot (trim_right p s)
  where
    keep-HeadIsNot : (t : Text) → HeadIsNot q (keep p c t)
    keep-HeadIsNot [] = elim (Bool-cases (p c)) [ inl e ↦ rw e tt | inr e ↦ rw e h ]
    keep-HeadIsNot (d ∷ t) = h

keep-SinglyHyphened :
    (p : ℕ → Bool) (c : ℕ) (s : Text)
    → (is_hyphen c ≡ true → HeadIsNot is_hyphen s)
    → SinglyHyphened s
    → SinglyHyphened (keep p c s)
keep-SinglyHyphened p c [] _ _ = elim (Bool-cases (p c)) [ inl e ↦ rw e tt | inr e ↦ rw e tt ]
keep-SinglyHyphened p c (d ∷ s) f h = (f, h)

trim_right-SinglyHyphened :
    (p : ℕ → Bool) (s : Text) → SinglyHyphened s → SinglyHyphened (trim_right p s)
unfolding trim_right
trim_right-SinglyHyphened p [] _ = tt
trim_right-SinglyHyphened p (c ∷ []) _ = keep-SinglyHyphened p c [] (λ _. tt) tt
trim_right-SinglyHyphened p (c ∷ d ∷ s) (f, h) =
    keep-SinglyHyphened p c (trim_right p (d ∷ s))
      (λ e. trim_right-HeadIsNot p is_hyphen (d ∷ s) (f e)) (trim_right-SinglyHyphened p (d ∷ s) h)

-- Whatever the text, its slug has the shape.
pub slugify-IsSlug : (s : Text) → IsSlug (slugify s)
unfolding slugify
slugify-IsSlug s =
    let written = write_runes false (map to_lower (trim_space s)) in
    record {
      runes =
          trim-All is_hyphen SlugRune written (write_runes-All false (map to_lower (trim_space s)));
      singly = trim_right-SinglyHyphened is_hyphen (trim_left is_hyphen written) (
          trim_left-SinglyHyphened is_hyphen written
            (write_runes-SinglyHyphened false (map to_lower (trim_space s))));
      trimmed = trim-IsTrimmed is_hyphen written;
    }

-- On a text of that shape the passes of `slugify` change nothing.
pub is_space-SlugRune : (c : ℕ) → SlugRune c → is_space c ≡ false
unfolding is_space is_slug_rune
is_space-SlugRune c h = ground arith

to_lower-SlugRune : (c : ℕ) → SlugRune c → to_lower c ≡ c
unfolding to_lower is_slug_rune
to_lower-SlugRune c h = ground arith

map-to_lower_id : (s : Text) → All SlugRune s → map to_lower s ≡ s
map-to_lower_id [] _ = refl
map-to_lower_id (c ∷ s) (h, hs) = cc (to_lower-SlugRune c h, map-to_lower_id s hs)

write_runes-cons :
    (last : Bool) (c : ℕ) (s : Text)
    → SlugRune c
    → StartsAfter last (c ∷ s)
    → write_runes false s ≡ s
    → (is_hyphen c ≡ true → write_runes true s ≡ s)
    → write_runes last (c ∷ s) ≡ c ∷ s
unfolding write_runes
write_runes-cons true c s h b p q = ground arith
write_runes-cons false c s h b p q = ground arith

write_runes_id :
    (last : Bool) (s : Text)
    → All SlugRune s
    → SinglyHyphened s
    → StartsAfter last s
    → write_runes last s ≡ s
write_runes_id last [] _ _ _ = unfold write_runes in refl
write_runes_id last (c ∷ []) (h, _) _ b =
    write_runes-cons last c [] h b (unfold write_runes in refl) (λ _. unfold write_runes in refl)
write_runes_id last (c ∷ d ∷ s) (h, hs) (f, g) b =
    write_runes-cons last c (d ∷ s) h b (write_runes_id false (d ∷ s) hs g tt)
      (λ e. write_runes_id true (d ∷ s) hs g (f e))

-- A text of the shape is its own slug.
pub slugify_id : (s : Text) → IsSlug s → slugify s ≡ s
unfolding slugify
slugify_id s h =
    rw (trim_space_id, map-to_lower_id s h.runes, write_runes_id false s h.runes h.singly tt)
      (trim_id is_hyphen s h.trimmed)
  where
    trim_space_id : trim_space s ≡ s
    trim_space_id =
        trim_id is_space s (All-IsTrimmed is_space s (All-mono is_space-SlugRune s h.runes))

-- Slugs are fixed points: a second `slugify` changes nothing.
pub slugify-slugify : (s : Text) → slugify (slugify s) ≡ slugify s
slugify-slugify s = slugify_id (slugify s) (slugify-IsSlug s)

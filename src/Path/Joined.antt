-- ===== src/Path/Joined.antt =====
-- What a rooted path that is joined with others ends in.
use flo_mimi.Prelude.{
  ℕ, true, [], ◌∷◌, ◌++◌, List, ◌≡◌, ◌≢◌, refl, sym, ap, ◌∙◌, inl, inr, append_assoc, Text,
  Text-discrete, ◌==◌, Bool-cases,
}
use flo_mimi.Path.{elements, add_rune, push, walk, reverse_onto, join, clean, paste, join_paths}

add_rune-append :
    (c : ℕ) (es fs : List Text) → es ≢ [] → add_rune c (es ++ fs) ≡ add_rune c es ++ fs
add_rune-append c [] fs h = absurd (h refl)
add_rune-append c (e ∷ es) fs h = refl

elements-filled : (s : Text) → elements s ≢ []
unfolding elements
elements-filled [] h = cc
elements-filled (c ∷ s) h = elim (Bool-cases (c == b'/')) [
  | inl e ↦ absurd (first_filled (rw e at h))
  | inr e ↦ absurd (added_filled (elements s) (rw e at h))
]
  where
    first_filled : [] ∷ elements s ≢ []
    first_filled k = cc

    added_filled : (es : List Text) → add_rune c es ≢ []
    added_filled [] k = cc
    added_filled (e ∷ es) k = cc

-- A slash between two texts is a slash between their elements.
elements-slash : (s t : Text) → elements (s ++ (b'/' ∷ t)) ≡ elements s ++ elements t
unfolding elements
elements-slash [] t = refl
elements-slash (c ∷ s) t = elim (Bool-cases (c == b'/')) [
  | inl e ↦ rw e (ap (λ es. [] ∷ es) (elements-slash s t))
  | inr e ↦ rw e (
      ap (add_rune c) (elements-slash s t)
      ∙ add_rune-append c (elements s) (elements t) (elements-filled s))
]

walk-append :
    (rooted : _) (out es fs : List Text)
    → walk rooted out (es ++ fs) ≡ walk rooted (walk rooted out es) fs
unfolding walk
walk-append rooted out [] fs = refl
walk-append rooted out (e ∷ es) fs = walk-append rooted (push rooted out e) es fs

-- What was written last stays at the end of the path.
reverse_onto-join :
    (out : List Text) (e : Text) (es : List Text)
    → (p : Text) × (b'/' ∷ join (reverse_onto out (e ∷ es)) ≡ p ++ (b'/' ∷ join (e ∷ es)))
unfolding reverse_onto join
reverse_onto-join [] e es = ([], refl)
reverse_onto-join (f ∷ out) e es =
    let (p, h) = reverse_onto-join out f (e ∷ es) in
    (p ++ (b'/' ∷ f), h ∙ sym (append_assoc p (b'/' ∷ f) (b'/' ∷ join (e ∷ es))))

-- A rooted path that is joined with a path of two plain elements is rooted and ends in them.
pub join_paths-two :
    (s t e f : Text)
    → ((out : List Text) → walk true out (elements t) ≡ f ∷ e ∷ out)
    → (p : Text) × (join_paths ((b'/' ∷ s) ∷ t ∷ []) ≡ p ++ (b'/' ∷ join (e ∷ f ∷ [])))
unfolding join_paths paste clean reverse_onto Text-discrete
join_paths-two s t e f h =
    let (p, k) = reverse_onto-join (walk true [] (elements s)) e (f ∷ []) in
    (
      p,
      rw
          (
            elements-slash s t,
            walk-append true [] (elements s) (elements t),
            h (walk true [] (elements s)),
          )
          k,
    )

-- ===== src/Path/Valid.antt =====
-- What is left of a rooted path names a file below the root.
use flo_mimi.Prelude.{
  ℕ, true, ◌||◌, [], ◌∷◌, List, ◌≡◌, ◌≢◌, refl, inl, inr, arith, Text, codes, same, ◌==◌, All,
  Bool-cases,
}
use flo_mimi.Path.{elements, add_rune, push, back, walk, reverse_onto, join, clean, trim_slash}

abbrev pub NoSlash : Text → Type 0
NoSlash e = All (λ (c : ℕ). c ≢ b'/') e

-- A part of a name: not empty, not "." and not "..", and without a slash.
pub record IsElement (e : Text) : Type 0 where
  pub filled : e ≢ []
  pub not_here : e ≢ codes "."
  pub not_above : e ≢ codes ".."
  pub no_slash : NoSlash e

elements-NoSlash : (s : Text) → All NoSlash (elements s)
unfolding elements
elements-NoSlash [] = (tt, tt)
elements-NoSlash (c ∷ s) = elim (Bool-cases (c == b'/')) [
  | inl e ↦ rw e (tt, elements-NoSlash s)
  | inr e ↦ rw e (add_rune-NoSlash c (elements s) (ground arith) (elements-NoSlash s))
]
  where
    add_rune-NoSlash :
        (c : ℕ) (es : List Text) → c ≢ b'/' → All NoSlash es → All NoSlash (add_rune c es)
    add_rune-NoSlash c [] h k = ((h, tt), tt)
    add_rune-NoSlash c (e ∷ es) h (k, ks) = ((h, k), ks)

-- At the root only elements of a name are written.
push-IsElement :
    (out : List Text) (e : Text) → NoSlash e → All IsElement out → All IsElement (push true out e)
unfolding push
push-IsElement out e s h = elim (Bool-cases (same e [] || same e (codes "."))) [
  | inl skipped ↦ rw skipped h
  | inr k ↦ rw k (elim (Bool-cases (same e (codes ".."))) [
    | inl above ↦ rw above (back_IsElement out h)
    | inr named ↦ rw named (
      record {
        filled = λ q. absurd (ground arith);
        not_here = λ q. absurd (ground arith);
        not_above = λ q. absurd (ground arith);
        no_slash = s;
      },
      h,
    )
  ])
]
  where
    back_IsElement : (out : List Text) → All IsElement out → All IsElement (back true out)
    back_IsElement [] h = tt
    back_IsElement (f ∷ out) h = elim (Bool-cases (same f (codes ".."))) [
      | inl above ↦ absurd (h.0.not_above (ground arith))
      | inr other ↦ rw other h.1
    ]

walk-IsElement :
    (out es : List Text) → All NoSlash es → All IsElement out → All IsElement (walk true out es)
unfolding walk
walk-IsElement out [] k h = h
walk-IsElement out (e ∷ es) (k, ks) h =
    walk-IsElement (push true out e) es ks (push-IsElement out e k h)

reverse_onto-IsElement :
    (out es : List Text)
    → All IsElement out
    → All IsElement es
    → All IsElement (reverse_onto out es)
unfolding reverse_onto
reverse_onto-IsElement [] es h k = k
reverse_onto-IsElement (e ∷ out) es (h, hs) k = reverse_onto-IsElement out (e ∷ es) hs (h, k)

-- A rooted path is cleaned to the root followed by elements of a name.
pub clean-IsElement :
    (s : Text) → (es : List Text) × All IsElement es × (trim_slash (clean (b'/' ∷ s)) ≡ join es)
unfolding clean trim_slash
clean-IsElement s = (
  reverse_onto (walk true [] (elements s)) [],
  reverse_onto-IsElement _ [] (walk-IsElement [] (elements s) (elements-NoSlash s) tt) tt,
  refl,
)

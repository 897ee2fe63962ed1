-- ===== src/Telemetry/Setup/TracePath.antt =====
-- Where the exporter posts to.
use flo_mimi.Prelude.{
  true, false, ◌||◌, [], ◌∷◌, ◌++◌, ◌⊎◌, ◌≡◌, ◌≢◌, refl, ap, ◌∙◌, inl, inr, arith, Text,
  Text-discrete, codes, same, Bool-cases,
}
use flo_mimi.Text.{trim_space, trim, trim_left, trim_right, keep, is_space, has_suffix}
use flo_mimi.Path.{join_paths, walk, push, elements, join}
use flo_mimi.Path.Joined.{join_paths-two}
use flo_mimi.Telemetry.Setup.{trace_path}

-- A path that ends in the traces' endpoint.
abbrev pub IsTracesPath : Text → Type 0
IsTracesPath path = (p : Text) × (path ≡ p ++ codes "/v1/traces")

has_suffix-append : (p s : Text) → has_suffix p s ≡ true → (q : Text) × (s ≡ q ++ p)
unfolding has_suffix
has_suffix-append p [] h = ([], ground arith)
has_suffix-append p (c ∷ s) h = elim (Bool-cases (same (c ∷ s) p)) [
  | inl e ↦ ([], ground arith)
  | inr e ↦ let (q, k) = has_suffix-append p s (rw e at h) in (c ∷ q, ap (λ t. c ∷ t) k)
]

-- What is left of a rooted path without the space around it is rooted.
trim_space-rooted : (s : Text) → (t : Text) × (trim_space (b'/' ∷ s) ≡ b'/' ∷ t)
unfolding trim_space trim trim_left trim_right is_space
trim_space-rooted s = (trim_right is_space s, keep-slash (trim_right is_space s))
  where
    keep-slash : (t : Text) → keep is_space b'/' t ≡ b'/' ∷ t
    keep-slash [] = refl
    keep-slash (c ∷ t) = refl

empty_trimmed : trim_space [] ≡ []
unfolding trim_space trim trim_left trim_right
empty_trimmed = refl

joined-IsTracesPath :
    (s : Text) → IsTracesPath (join_paths (trim_space (b'/' ∷ s) ∷ codes "/v1/traces" ∷ []))
unfolding walk push elements join Text-discrete
joined-IsTracesPath s =
    let (t, k) = trim_space-rooted s in
    rw k (join_paths-two t (codes "/v1/traces") (codes "v1") (codes "traces") (λ out. refl))

-- Whatever path a rooted URL has, none included, the traces go to a path that ends in /v1/traces.
pub trace_path-IsTracesPath :
    (path : Text) → (path ≡ []) ⊎ ((s : Text) × (path ≡ b'/' ∷ s)) → IsTracesPath (trace_path path)
unfolding trace_path
trace_path-IsTracesPath path h =
    elim (Bool-cases (same (trim_space path) [] || same (trim_space path) (codes "/"))) [
      | inl e ↦ rw e ([], refl)
      | inr e ↦ rw e (elim (Bool-cases (has_suffix (codes "/v1/traces") (trim_space path))) [
        | inl k ↦ rw k (has_suffix-append (codes "/v1/traces") (trim_space path) k)
        | inr k ↦ rw k (elim h [
          | inl empty ↦ absurd (filled e (ap trim_space empty ∙ empty_trimmed))
          | inr rooted ↦ rw rooted.1 (joined-IsTracesPath rooted.0)
        ])
      ])
    ]
  where
    filled :
        same (trim_space path) [] || same (trim_space path) (codes "/") ≡ false
        → trim_space path ≢ []
    filled e k = ground arith

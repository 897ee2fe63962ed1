-- ===== src/Gateway/Routes.antt =====
-- `routePath` gives page paths: a leading slash, no blanks at the ends, and nothing left to do.
use flo_mimi.Prelude.{
  true, false, ◌||◌, [], ◌∷◌, ◌++◌, ◌≡◌, ◌≢◌, refl, arith, Text, codes, same, if◌then◌else◌,
  Bool-cases, inl, inr,
}
use flo_mimi.Text.{trim_space, has_prefix, is_space}
use flo_mimi.Text.Trim.{IsTrimmed, trim_space-IsTrimmed, trim_space_id}
use flo_mimi.Gateway.{route_path}

abbrev BeginsWithSlash : Text → Type 0
BeginsWithSlash [] = ⊥
BeginsWithSlash (c ∷ s) = c ≡ b'/'

pub record IsPagePath (r : Text) : Type 0 where
  pub slash : BeginsWithSlash r
  pub trimmed : IsTrimmed is_space r
  pub page : r ≢ codes "/"

has_prefix-BeginsWithSlash : (s : Text) → has_prefix (codes "/") s ≡ true → BeginsWithSlash s
unfolding has_prefix
has_prefix-BeginsWithSlash [] h = ground arith
has_prefix-BeginsWithSlash (c ∷ s) h = ground arith

cons_slash-IsTrimmed : (s : Text) → s ≢ [] → IsTrimmed is_space s → IsTrimmed is_space (b'/' ∷ s)
unfolding is_space
cons_slash-IsTrimmed [] n h = absurd (n refl)
cons_slash-IsTrimmed (c ∷ s) n h = record { head = refl; last = h.last }

dashboard-IsTrimmed : IsTrimmed is_space (codes "/dashboard")
unfolding is_space
dashboard-IsTrimmed = record { head = refl; last = refl }

same-false : (s t : Text) → same s t ≡ false → s ≢ t
same-false s t h = ground arith

cons_slash-page : (t : Text) → t ≢ [] → b'/' ∷ t ≢ codes "/"
cons_slash-page t n e = n (cc)

page_of_trimmed :
    (t : Text)
    → IsTrimmed is_space t
    → IsPagePath (
        if same t [] || same t (codes "/")
        then codes "/dashboard"
        else if has_prefix (codes "/") t
        then t
        else codes "/" ++ t)
page_of_trimmed t h = elim (Bool-cases (same t [])) [
  | inl e ↦ rw e (record { slash = refl; trimmed = dashboard-IsTrimmed; page = λ p. cc })
  | inr full ↦ elim (Bool-cases (same t (codes "/"))) [
    | inl e ↦ rw (full, e) (record { slash = refl; trimmed = dashboard-IsTrimmed; page = λ p. cc })
    | inr page ↦ elim (Bool-cases (has_prefix (codes "/") t)) [
      | inl e ↦
          rw (full, page, e)
            (record {
              slash = has_prefix-BeginsWithSlash t e;
              trimmed = h;
              page = same-false t _ page;
            })
      | inr e ↦
          rw (full, page, e)
            (record {
              slash = refl;
              trimmed = cons_slash-IsTrimmed t (same-false t [] full) h;
              page = cons_slash-page t (same-false t [] full);
            })
    ]
  ]
]

-- Whatever the route, the page that the events name is a trimmed path below the root.
pub route_path-IsPagePath : (s : Text) → IsPagePath (route_path s)
unfolding route_path
route_path-IsPagePath s = page_of_trimmed (trim_space s) (trim_space-IsTrimmed s)

BeginsWithSlash-has_prefix : (s : Text) → BeginsWithSlash s → has_prefix (codes "/") s ≡ true
unfolding has_prefix
BeginsWithSlash-has_prefix [] h = absurd h
BeginsWithSlash-has_prefix (c ∷ s) h = ground arith

not_empty : (s : Text) → BeginsWithSlash s → s ≢ []
not_empty [] h = absurd h
not_empty (c ∷ s) h = λ e. cc

route_path_id : (r : Text) → IsPagePath r → route_path r ≡ r
unfolding route_path
route_path_id r h =
    rw (trim_space_id r h.trimmed)
      (ground (arith, h.page, not_empty r h.slash, BeginsWithSlash-has_prefix r h.slash))

-- A page path is its own page path, so it may be computed again at no harm.
pub route_path-route_path : (s : Text) → route_path (route_path s) ≡ route_path s
route_path-route_path s = route_path_id (route_path s) (route_path-IsPagePath s)

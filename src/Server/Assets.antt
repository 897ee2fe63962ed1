-- ===== src/Server/Assets.antt =====
-- Which assets a request can reach.
use flo_mimi.Prelude.{[], ◌∷◌, List, ◌≡◌, ◌≢◌, refl, sym, ◌∙◌, arith, Text, codes, All}
use flo_mimi.Path.{join}
use flo_mimi.Path.Valid.{IsElement, clean-IsElement}
use flo_mimi.Server.{asset_path, index_if_empty}

index-IsElement : IsElement (codes "index.html")
index-IsElement = record {
  filled = λ e. cc;
  not_here = λ e. cc;
  not_above = λ e. cc;
  no_slash = omega arith;
}

join-ne-nil : (e : Text) (es : List Text) → e ≢ [] → join (e ∷ es) ≢ []
unfolding join
join-ne-nil [] es h = absurd (h refl)
join-ne-nil (c ∷ e) [] h = λ q. cc
join-ne-nil (c ∷ e) (f ∷ es) h = λ q. cc

index_if_filled : (path : Text) → path ≢ [] → index_if_empty path ≡ path
index_if_filled path h = ground arith

index_if_empty-IsElement :
    (path : Text) (es : List Text)
    → All IsElement es
    → path ≡ join es
    → (names : List Text) × (names ≢ []) × All IsElement names × (index_if_empty path ≡ join names)
unfolding join
index_if_empty-IsElement path [] h p =
    (codes "index.html" ∷ [], λ e. cc, (index-IsElement, tt), ground arith)
index_if_empty-IsElement path (e ∷ es) h p =
    (e ∷ es, λ q. cc, h, index_if_filled path (λ q. join-ne-nil e es h.0.filled (sym p ∙ q)) ∙ p)

-- The name that is looked up among the assets for a rooted path is that of a file below their root:
-- elements that are neither empty nor "." nor ".." and have no slash, joined by slashes.
pub asset_path-IsElement :
    (s : Text)
    → (names : List Text) × (names ≢ [])
      × All IsElement names
      × (asset_path (b'/' ∷ s) ≡ join names)
unfolding asset_path
asset_path-IsElement s =
    let (es, valid, same_path) = clean-IsElement s in index_if_empty-IsElement _ es valid same_path

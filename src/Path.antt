-- ===== src/Path.antt =====
-- Go's path.Clean, and strings.TrimPrefix(s, "/") of its result.
pub mod Valid
pub mod Joined
use flo_mimi.Prelude.{
  ℕ, Bool, true, false, ◌||◌, [], ◌∷◌, ◌++◌, List, Text, codes, same, ◌==◌, if◌then◌else◌,
}

abbrev pub add_rune : ℕ → List Text → List Text
add_rune c [] = (c ∷ []) ∷ []
add_rune c (e ∷ es) = (c ∷ e) ∷ es

-- The elements between the slashes, the empty ones included.
unfoldable pub elements : Text → List Text
elements [] = [] ∷ []
elements (c ∷ s) = let rest = elements s in if c == b'/' then [] ∷ rest else add_rune c rest

-- ".." takes the latest element back. At the root it is dropped, and where nothing but ".." was
-- written it is written itself.
abbrev pub back : Bool → List Text → List Text
back true [] = []
back false [] = codes ".." ∷ []
back rooted (e ∷ out) = if same e (codes "..") then codes ".." ∷ e ∷ out else out

-- One element, onto those that were written, the latest first.
unfoldable pub push : Bool → List Text → Text → List Text
push rooted out e =
    if same e [] || same e (codes ".")
    then out
    else if same e (codes "..")
    then back rooted out
    else e ∷ out

unfoldable pub walk : Bool → List Text → List Text → List Text
unfolding push
walk rooted out [] = out
walk rooted out (e ∷ es) = walk rooted (push rooted out e) es

unfoldable pub reverse_onto : List Text → List Text → List Text
reverse_onto [] es = es
reverse_onto (e ∷ out) es = reverse_onto out (e ∷ es)

unfoldable pub join : List Text → Text
join [] = []
join (e ∷ []) = e
join (e ∷ f ∷ es) = e ++ (b'/' ∷ join (f ∷ es))

abbrev pub or_dot : Text → Text
or_dot [] = codes "."
or_dot (c ∷ s) = c ∷ s

-- path.Clean
unfoldable pub clean : Text → Text
unfolding elements walk reverse_onto join
clean [] = codes "."
clean (c ∷ s) =
    if c == b'/'
    then b'/' ∷ join (reverse_onto (walk true [] (elements s)) [])
    else or_dot (join (reverse_onto (walk false [] (elements (c ∷ s))) []))

-- strings.TrimPrefix(s, "/")
unfoldable pub trim_slash : Text → Text
trim_slash [] = []
trim_slash (c ∷ s) = if c == b'/' then s else c ∷ s

-- path.Join
unfoldable pub paste : Text → List Text → Text
paste buffer [] = buffer
paste buffer (e ∷ es) = if same buffer [] then paste e es else paste (buffer ++ (b'/' ∷ e)) es

unfoldable pub join_paths : List Text → Text
unfolding paste clean
join_paths es = let p = paste [] es in if same p [] then [] else clean p

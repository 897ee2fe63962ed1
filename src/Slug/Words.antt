-- ===== src/Slug/Words.antt =====
-- `slugify` against an independent description: the words of a text, joined by hyphens.
use flo_mimi.Prelude.{
  ℕ, Bool, true, false, List, [], ◌∷◌, ◌++◌, map, ◌≡◌, refl, ◌∙◌, ap, arith, Text, if◌then◌else◌,
  Bool-cases, inl, inr,
}
use flo_mimi.Text.{to_lower, trim_left, trim_right, trim_space, keep, is_space}
use flo_mimi.Text.Trim.{trim_left_id}
use flo_mimi.Slug.{is_slug_rune, write_runes, is_hyphen, slugify}
use flo_mimi.Slug.Shape.{write_runes-StartsAfter}

-- A word is a longest run of letters and digits. `push` drops the empty run.
abbrev pub push : Text → List Text → List Text
push [] ws = ws
push (c ∷ w) ws = (c ∷ w) ∷ ws

-- The run that the text begins with, and the words behind it.
unfoldable pub cut : Text → Text × List Text
unfolding is_slug_rune
cut [] = ([], [])
cut (c ∷ s) = let (w, ws) = cut s in if is_slug_rune c then (c ∷ w, ws) else ([], push w ws)

unfoldable pub words : Text → List Text
unfolding cut
words s = push (cut s).0 (cut s).1

-- The words from the second on, each behind a hyphen.
abbrev pub hyphenated : List Text → Text
hyphenated [] = []
hyphenated (w ∷ ws) = b'-' ∷ (w ++ hyphenated ws)

abbrev pub join : List Text → Text
join [] = []
join (w ∷ ws) = w ++ hyphenated ws

step_slug :
    (last : Bool) (c : ℕ) (s : Text)
    → is_slug_rune c ≡ true
    → write_runes last (c ∷ s) ≡ c ∷ write_runes false s
unfolding write_runes
step_slug last c s h = ground arith

step_other :
    (last : Bool) (c : ℕ) (s : Text)
    → is_slug_rune c ≡ false
    → write_runes last (c ∷ s) ≡ (if last then write_runes true s else b'-' ∷ write_runes true s)
unfolding write_runes
step_other true c s h = ground arith
step_other false c s h = ground arith

cut_slug : (c : ℕ) (s : Text) → is_slug_rune c ≡ true → cut (c ∷ s) ≡ (c ∷ (cut s).0, (cut s).1)
unfolding cut
cut_slug c s h = ground arith

cut_other : (c : ℕ) (s : Text) → is_slug_rune c ≡ false → cut (c ∷ s) ≡ ([], words s)
unfolding cut words
cut_other c s h = ground arith

words_slug :
    (c : ℕ) (s : Text) → is_slug_rune c ≡ true → words (c ∷ s) ≡ (c ∷ (cut s).0) ∷ (cut s).1
unfolding words
words_slug c s h = ground arith

words_other : (c : ℕ) (s : Text) → is_slug_rune c ≡ false → words (c ∷ s) ≡ words s
unfolding words
words_other c s h = ground arith

slug_rune-is_hyphen : (c : ℕ) → is_slug_rune c ≡ true → is_hyphen c ≡ false
unfolding is_slug_rune
slug_rune-is_hyphen c h = ground arith

keep_slug : (c : ℕ) (s : Text) → is_slug_rune c ≡ true → keep is_hyphen c s ≡ c ∷ s
unfolding is_slug_rune
keep_slug c [] h = ground arith
keep_slug c (d ∷ s) h = refl

abbrev NoneIsEmpty : List Text → Type 0
NoneIsEmpty [] = Unit
NoneIsEmpty ([] ∷ ws) = ⊥
NoneIsEmpty ((c ∷ w) ∷ ws) = NoneIsEmpty ws

push-NoneIsEmpty : (w : Text) (ws : List Text) → NoneIsEmpty ws → NoneIsEmpty (push w ws)
push-NoneIsEmpty [] ws h = h
push-NoneIsEmpty (c ∷ w) ws h = h

cut-NoneIsEmpty : (s : Text) → NoneIsEmpty (cut s).1
unfolding words
cut-NoneIsEmpty [] = tt
cut-NoneIsEmpty (c ∷ s) = elim (Bool-cases (is_slug_rune c)) [
  | inl e ↦ rw (cut_slug c s e) (cut-NoneIsEmpty s)
  | inr e ↦ rw (cut_other c s e, words) (push-NoneIsEmpty (cut s).0 (cut s).1 (cut-NoneIsEmpty s))
]

-- No word is empty, so a hyphen stays exactly when a word follows it.
keep-join : (ws : List Text) → NoneIsEmpty ws → keep is_hyphen b'-' (join ws) ≡ hyphenated ws
keep-join [] _ = refl
keep-join ([] ∷ ws) h = absurd h
keep-join ((c ∷ w) ∷ ws) h = refl

words-NoneIsEmpty : (s : Text) → NoneIsEmpty (words s)
unfolding words
words-NoneIsEmpty s = push-NoneIsEmpty (cut s).0 (cut s).1 (cut-NoneIsEmpty s)

-- What the loop writes, less the hyphen at its end: after a hyphen it is the words, and at the
-- beginning or after a rune that it kept, the rest of the word and then the words.
trim_right-write_runes :
    (t : Text)
    → (trim_right is_hyphen (write_runes true t) ≡ join (words t))
      × (trim_right is_hyphen (write_runes false t) ≡ (cut t).0 ++ hyphenated (cut t).1)
unfolding trim_right
trim_right-write_runes [] = unfold write_runes words in (refl, refl)
trim_right-write_runes (c ∷ s) = elim (Bool-cases (is_slug_rune c)) [
  | inl e ↦
      let run : trim_right is_hyphen (c ∷ write_runes false s)
          ≡ c ∷ ((cut s).0 ++ hyphenated (cut s).1) =
        rw (trim_right-write_runes s).1 (keep_slug c _ e) in
      (
        rw (step_slug true c s e, run) (rw (words_slug c s e)),
        rw (step_slug false c s e, run) (rw (cut_slug c s e)),
      )
  | inr e ↦ (
    rw (step_other true c s e) (rw (words_other c s e) (trim_right-write_runes s).0),
    rw (step_other false c s e) (
        rw (cut_other c s e, (trim_right-write_runes s).0)
          (keep-join (words s) (words-NoneIsEmpty s))),
  )
]

-- The left trim takes the one hyphen that the loop may begin with.
trim_left-write_runes : (t : Text) → trim_left is_hyphen (write_runes false t) ≡ write_runes true t
unfolding trim_left
trim_left-write_runes [] = unfold write_runes in refl
trim_left-write_runes (c ∷ s) = elim (Bool-cases (is_slug_rune c)) [
  | inl e ↦ rw (step_slug false c s e, step_slug true c s e, slug_rune-is_hyphen c e)
  | inr e ↦
      rw (step_other false c s e, step_other true c s e)
        (trim_left_id is_hyphen _ (write_runes-StartsAfter true s))
]

-- Runes that are no part of a word change nothing at the ends.
module _ (p : ℕ → Bool) (outside : (c : ℕ) → p c ≡ true → is_slug_rune (to_lower c) ≡ false) where
  words-trim_left : (s : Text) → words (map to_lower (trim_left p s)) ≡ words (map to_lower s)
  unfolding trim_left
  words-trim_left [] = refl
  words-trim_left (c ∷ s) = elim (Bool-cases (p c)) [
    | inl e ↦
        rw e (rw (words_other (to_lower c) (map to_lower s) (outside c e)) (words-trim_left s))
    | inr e ↦ rw e
  ]

  cut-keep : (c : ℕ) (s : Text) → cut (map to_lower (keep p c s)) ≡ cut (map to_lower (c ∷ s))
  cut-keep c [] = elim (Bool-cases (p c)) [
    | inl e ↦ rw (e, cut_other (to_lower c) [] (outside c e)) (unfold words in refl)
    | inr e ↦ rw e
  ]
  cut-keep c (d ∷ s) = refl

  cut-trim_right : (s : Text) → cut (map to_lower (trim_right p s)) ≡ cut (map to_lower s)
  unfolding trim_right cut
  cut-trim_right [] = refl
  cut-trim_right (c ∷ s) =
      cut-keep c (trim_right p s)
      ∙ ap (λ r. if is_slug_rune (to_lower c) then (to_lower c ∷ r.0, r.1) else ([], push r.0 r.1))
          (cut-trim_right s)

  words-trim_right : (s : Text) → words (map to_lower (trim_right p s)) ≡ words (map to_lower s)
  unfolding words
  words-trim_right s = rw (cut-trim_right s)

space_outside : (c : ℕ) → is_space c ≡ true → is_slug_rune (to_lower c) ≡ false
unfolding is_space to_lower is_slug_rune
space_outside c h = ground arith

-- The slug of a text is its words of lower-case letters and digits, joined by single hyphens.
pub slugify-words : (s : Text) → slugify s ≡ join (words (map to_lower s))
unfolding slugify
slugify-words s = rw (
  trim_left-write_runes,
  (trim_right-write_runes (map to_lower (trim_space s))).0,
  words-trim_right is_space space_outside,
  words-trim_left is_space space_outside,
)

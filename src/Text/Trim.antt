-- ===== src/Text/Trim.antt =====
-- What trimming leaves: a text that the cut set neither begins nor ends, and all of it.
use flo_mimi.Prelude.{ℕ, Bool, false, [], ◌∷◌, ◌≡◌, refl, ◌≢◌, Text, All, Bool-cases, inl, inr}
use flo_mimi.Text.{trim_left, trim_right, trim, keep, trim_space, is_space}

module _ (p : ℕ → Bool) where
  abbrev pub HeadIsNot : Text → Type 0
  HeadIsNot [] = Unit
  HeadIsNot (c ∷ s) = p c ≡ false

  abbrev pub LastIsNot : Text → Type 0
  LastIsNot [] = Unit
  LastIsNot (c ∷ []) = p c ≡ false
  LastIsNot (c ∷ d ∷ s) = LastIsNot (d ∷ s)

  pub record IsTrimmed (s : Text) : Type 0 where
    pub head : HeadIsNot s
    pub last : LastIsNot s

  trim_left-HeadIsNot : (s : Text) → HeadIsNot (trim_left p s)
  unfolding trim_left
  trim_left-HeadIsNot [] = tt
  trim_left-HeadIsNot (c ∷ s) = elim (Bool-cases (p c)) [
    | inl e ↦ rw e (trim_left-HeadIsNot s)
    | inr e ↦ rw e e
  ]

  pub trim_left_id : (s : Text) → HeadIsNot s → trim_left p s ≡ s
  unfolding trim_left
  trim_left_id [] _ = refl
  trim_left_id (c ∷ s) h = rw h

  keep-LastIsNot : (c : ℕ) (s : Text) → LastIsNot s → LastIsNot (keep p c s)
  keep-LastIsNot c [] h = elim (Bool-cases (p c)) [ inl e ↦ rw e tt | inr e ↦ rw e e ]
  keep-LastIsNot c (d ∷ s) h = h

  trim_right-LastIsNot : (s : Text) → LastIsNot (trim_right p s)
  unfolding trim_right
  trim_right-LastIsNot [] = tt
  trim_right-LastIsNot (c ∷ s) = keep-LastIsNot c (trim_right p s) (trim_right-LastIsNot s)

  trim_right_id : (s : Text) → LastIsNot s → trim_right p s ≡ s
  unfolding trim_right
  trim_right_id [] _ = refl
  trim_right_id (c ∷ []) h = rw h
  trim_right_id (c ∷ d ∷ s) h = rw (trim_right_id (d ∷ s) h)

  keep-HeadIsNot : (c : ℕ) (s : Text) → p c ≡ false → HeadIsNot (keep p c s)
  keep-HeadIsNot c [] h = rw h h
  keep-HeadIsNot c (d ∷ s) h = h

  trim_right-HeadIsNot : (s : Text) → HeadIsNot s → HeadIsNot (trim_right p s)
  unfolding trim_right
  trim_right-HeadIsNot [] _ = tt
  trim_right-HeadIsNot (c ∷ s) h = keep-HeadIsNot c (trim_right p s) h

  pub trim-IsTrimmed : (s : Text) → IsTrimmed (trim p s)
  unfolding trim
  trim-IsTrimmed s = record {
    head = trim_right-HeadIsNot (trim_left p s) (trim_left-HeadIsNot s);
    last = trim_right-LastIsNot (trim_left p s);
  }

  pub trim_id : (s : Text) → IsTrimmed s → trim p s ≡ s
  unfolding trim
  trim_id s h = rw (trim_left_id s h.head) (trim_right_id s h.last)

  pub trim-trim : (s : Text) → trim p (trim p s) ≡ trim p s
  trim-trim s = trim_id (trim p s) (trim-IsTrimmed s)

-- A text that begins with a rune outside the cut set is not trimmed to nothing.
trim_right-cons : (p : ℕ → Bool) (c : ℕ) (s : Text) → p c ≡ false → trim_right p (c ∷ s) ≢ []
unfolding trim_right
trim_right-cons p c s h = keep-ne-nil (trim_right p s)
  where
    keep-ne-nil : (t : Text) → keep p c t ≢ []
    keep-ne-nil [] = rw h (λ e. cc)
    keep-ne-nil (d ∷ t) = λ e. cc

pub trim-cons-ne-nil : (p : ℕ → Bool) (c : ℕ) (s : Text) → p c ≡ false → trim p (c ∷ s) ≢ []
unfolding trim
trim-cons-ne-nil p c s h = rw (trim_left_id p (c ∷ s) h) (trim_right-cons p c s h)

All-LastIsNot : (p : ℕ → Bool) (s : Text) → All (λ c. p c ≡ false) s → LastIsNot p s
All-LastIsNot p [] _ = tt
All-LastIsNot p (c ∷ []) h = h.0
All-LastIsNot p (c ∷ d ∷ s) h = All-LastIsNot p (d ∷ s) h.1

pub All-IsTrimmed : (p : ℕ → Bool) (s : Text) → All (λ c. p c ≡ false) s → IsTrimmed p s
All-IsTrimmed p [] _ = record { head = tt; last = tt }
All-IsTrimmed p (c ∷ s) h = record { head = h.0; last = All-LastIsNot p (c ∷ s) h }

-- A property of all runes survives trimming.
module _ (p : ℕ → Bool) (Q : ℕ → Type 0) where
  trim_left-All : (s : Text) → All Q s → All Q (trim_left p s)
  unfolding trim_left
  trim_left-All [] _ = tt
  trim_left-All (c ∷ s) (h, hs) = elim (Bool-cases (p c)) [
    | inl e ↦ rw e (trim_left-All s hs)
    | inr e ↦ rw e (h, hs)
  ]

  keep-All : (c : ℕ) (s : Text) → Q c → All Q s → All Q (keep p c s)
  keep-All c [] h _ = elim (Bool-cases (p c)) [ inl e ↦ rw e tt | inr e ↦ rw e (h, tt) ]
  keep-All c (d ∷ s) h hs = (h, hs)

  trim_right-All : (s : Text) → All Q s → All Q (trim_right p s)
  unfolding trim_right
  trim_right-All [] _ = tt
  trim_right-All (c ∷ s) (h, hs) = keep-All c (trim_right p s) h (trim_right-All s hs)

  pub trim-All : (s : Text) → All Q s → All Q (trim p s)
  unfolding trim
  trim-All s h = trim_right-All (trim_left p s) (trim_left-All s h)

pub trim_space-IsTrimmed : (s : Text) → IsTrimmed is_space (trim_space s)
unfolding trim_space
trim_space-IsTrimmed s = trim-IsTrimmed is_space s

pub trim_space_id : (s : Text) → IsTrimmed is_space s → trim_space s ≡ s
unfolding trim_space
trim_space_id s h = trim_id is_space s h

pub trim_space-trim_space : (s : Text) → trim_space (trim_space s) ≡ trim_space s
unfolding trim_space
trim_space-trim_space s = trim-trim is_space s

pub trim_space-cons-ne-nil : (c : ℕ) (s : Text) → is_space c ≡ false → trim_space (c ∷ s) ≢ []
unfolding trim_space
trim_space-cons-ne-nil c s h = trim-cons-ne-nil is_space c s h

-- ===== src/Content/Table/Keys.antt =====
-- What a statement leaves under each key.
use flo_mimi.Prelude.{
  ap, ◌⊎◌, Bool, true, false, [], ◌∷◌, List, Option, none, some, ◌≡◌, ◌≢◌, refl, arith, Bool-cases,
  inl, inr,
}
use flo_mimi.Content.Table.{find, upsert, update_where, count_where}
use mathlib.Core.Option

-- The row that an upsert leaves.
abbrev pub merged : {R : Type 0} → (R → R) → R → Option R → R
merged merge row none = row
merged merge row (some r) = merge r

module _ {R : Type 0} (is_key : R → Bool) (merge : R → R)
    (keeps : (r : R) → is_key (merge r) ≡ is_key r) where
  pub find-upsert :
      (row : R) (rows : List R)
      → is_key row ≡ true
      → find is_key (upsert is_key merge row rows) ≡ some (merged merge row (find is_key rows))
  unfolding find upsert
  find-upsert row [] h = rw h
  find-upsert row (r ∷ rows) h = elim (Bool-cases (is_key r)) [
    | inl e ↦ rw (e, keeps r, e)
    | inr e ↦ rw (e, e) (find-upsert row rows h)
  ]

  pub find-update_where :
      (rows : List R)
      → find is_key (update_where is_key merge rows) ≡ Option.map merge (find is_key rows)
  unfolding find update_where
  find-update_where [] = refl
  find-update_where (r ∷ rows) = elim (Bool-cases (is_key r)) [
    | inl e ↦ rw (e, keeps r, e)
    | inr e ↦ rw (e, e) (find-update_where rows)
  ]

module _ {R : Type 0} (is_key other : R → Bool) (merge : R → R)
    (apart : (r : R) → is_key r ≡ true → (other r ≡ false) × (other (merge r) ≡ false)) where
  pub find-upsert_other :
      (row : R) (rows : List R)
      → is_key row ≡ true
      → find other (upsert is_key merge row rows) ≡ find other rows
  unfolding find upsert
  find-upsert_other row [] h = rw (apart row h).0
  find-upsert_other row (r ∷ rows) h = elim (Bool-cases (is_key r)) [
    | inl e ↦ rw (e, (apart r e).0, (apart r e).1)
    | inr e ↦ rw e (rw (find-upsert_other row rows h))
  ]

  pub find-update_where_other :
      (rows : List R) → find other (update_where is_key merge rows) ≡ find other rows
  unfolding find update_where
  find-update_where_other [] = refl
  find-update_where_other (r ∷ rows) = elim (Bool-cases (is_key r)) [
    | inl e ↦ rw (e, (apart r e).0, (apart r e).1) (find-update_where_other rows)
    | inr e ↦ rw e (rw (find-update_where_other rows))
  ]

module _ {R : Type 0} (is_key : R → Bool) where
  -- A statement affects no row exactly when no row has the key.
  pub count_where-find :
      (rows : List R)
      → (count_where is_key rows ≡ 0) × (find is_key rows ≡ none)
        ⊎ ((count_where is_key rows ≢ 0) × (find is_key rows ≢ none))
  unfolding find count_where
  count_where-find [] = inl (refl, refl)
  count_where-find (r ∷ rows) = elim (Bool-cases (is_key r)) [
    | inl e ↦ rw e (inr (omega arith, λ p. cc))
    | inr e ↦ rw e (count_where-find rows)
  ]

  -- Nor does it change anything then.
  pub update_where-absent :
      (set : R → R) (rows : List R)
      → count_where is_key rows ≡ 0
      → update_where is_key set rows ≡ rows
  unfolding count_where update_where
  update_where-absent set [] h = refl
  update_where-absent set (r ∷ rows) h = elim (Bool-cases (is_key r)) [
    | inl e ↦ absurd (omega (arith, rw e at h))
    | inr e ↦ rw e (ap (λ q. r ∷ q) (update_where-absent set rows (rw e at h)))
  ]

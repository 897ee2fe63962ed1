-- ===== src/Content/Table.antt =====
-- Tables as lists of rows, and what the SQL statements of the repository do to one.
pub mod Unique
pub mod Keys
use flo_mimi.Prelude.{
  ℕ, suc, ◌+◌, Bool, true, false, [], ◌∷◌, List, Option, none, some, if◌then◌else◌,
}
use Prim.Native.Nat.{max}

module _ {R : Type 0} where
  -- select … where: the row of a key.
  unfoldable pub find : (R → Bool) → List R → Option R
  find is_key [] = none
  find is_key (r ∷ rows) = if is_key r then some r else find is_key rows

  -- insert … on conflict (key) do update: `merge` sets the named columns of the old row.
  unfoldable pub upsert : (R → Bool) → (R → R) → R → List R → List R
  upsert is_key merge row [] = row ∷ []
  upsert is_key merge row (r ∷ rows) =
      if is_key r then merge r ∷ rows else r ∷ upsert is_key merge row rows

  -- update … set … where
  unfoldable pub update_where : (R → Bool) → (R → R) → List R → List R
  update_where is_key set [] = []
  update_where is_key set (r ∷ rows) =
      (if is_key r then set r else r) ∷ update_where is_key set rows

  -- The rows affected.
  unfoldable pub count_where : (R → Bool) → List R → ℕ
  count_where is_key [] = 0
  count_where is_key (r ∷ rows) =
      if is_key r then suc (count_where is_key rows) else count_where is_key rows

  -- delete … where
  unfoldable pub delete_where : (R → Bool) → List R → List R
  delete_where is_key [] = []
  delete_where is_key (r ∷ rows) =
      if is_key r then delete_where is_key rows else r ∷ delete_where is_key rows

  -- coalesce(max(display_order), 0) of the rows of an environment.
  unfoldable pub max_order : (R → Bool) → (R → ℕ) → List R → ℕ
  max_order in_environment order [] = 0
  max_order in_environment order (r ∷ rows) =
      if in_environment r
      then max (order r) (max_order in_environment order rows)
      else max_order in_environment order rows

-- ===== src/Content/Table/Unique.antt =====
-- Labels that are unique within an environment: the primary keys and the display orders of a table.
use Prim.Native.Nat.{max}
use flo_mimi.Prelude.{
  ℕ, ◌+◌, ◌≤◌, Bool, ◌&&◌, [], ◌∷◌, List, Option, none, some, ◌≡◌, ◌≢◌, refl, sym, ◌∙◌, arith, Text,
  same, All, All-mono, ◌==◌, if◌then◌else◌, Bool-cases, inl, inr, some-same, ap,
}
use mathlib.Core.Path.{subst}
use flo_mimi.Content.Table.{find, upsert, update_where, max_order}
use mathlib.Core.Option

module _ {R L : Type 0} (env : R → Text) (label : R → L) where
  abbrev pub Apart : R → R → Type 0
  Apart r q = env r ≡ env q → label r ≢ label q

  abbrev pub IsUnique : List R → Type 0
  IsUnique [] = Unit
  IsUnique (r ∷ rows) = All (Apart r) rows × IsUnique rows

module _ {R : Type 0} (P : R → Type 0) (is_key : R → Bool) (merge : R → R) where
  pub upsert-All :
      (row : R) (rows : List R)
      → ((r : R) → P r → P (merge r))
      → (find is_key rows ≡ none → P row)
      → All P rows
      → All P (upsert is_key merge row rows)
  unfolding upsert find
  upsert-All row [] m n _ = (n refl, tt)
  upsert-All row (r ∷ rows) m n (h, hs) = elim (Bool-cases (is_key r)) [
    | inl e ↦ rw e (m r h, hs)
    | inr e ↦ rw e (h, upsert-All row rows m (λ absent. n (rw e absent)) hs)
  ]

  pub update_where-All :
      (rows : List R)
      → ((r : R) → P r → P (merge r))
      → All P rows
      → All P (update_where is_key merge rows)
  unfolding update_where
  update_where-All [] m _ = tt
  update_where-All (r ∷ rows) m (h, hs) = elim (Bool-cases (is_key r)) [
    | inl e ↦ rw e (m r h, update_where-All rows m hs)
    | inr e ↦ rw e (h, update_where-All rows m hs)
  ]

module _ {R L : Type 0} (env : R → Text) (label : R → L) (is_key : R → Bool) (merge : R → R)
    (keeps : (r : R) → (env (merge r) ≡ env r) × (label (merge r) ≡ label r)) where
  merged-Apart_left : (r q : R) → Apart env label r q → Apart env label (merge r) q
  merged-Apart_left r q h e f = h (sym (keeps r).0 ∙ e) (sym (keeps r).1 ∙ f)

  merged-Apart_right : (r q : R) → Apart env label r q → Apart env label r (merge q)
  merged-Apart_right r q h e f = h (e ∙ (keeps q).0) (f ∙ (keeps q).1)

  -- An upsert keeps labels unique if the row that it may add is apart from the rows that are there.
  pub upsert-IsUnique :
      (row : R) (rows : List R)
      → (find is_key rows ≡ none → All (λ r. Apart env label r row) rows)
      → IsUnique env label rows
      → IsUnique env label (upsert is_key merge row rows)
  unfolding upsert find
  upsert-IsUnique row [] n _ = (tt, tt)
  upsert-IsUnique row (r ∷ rows) n (h, hs) = elim (Bool-cases (is_key r)) [
    | inl e ↦ rw e (All-mono (merged-Apart_left r) rows h, hs)
    | inr e ↦ rw e (
      upsert-All (Apart env label r) is_key merge row rows (merged-Apart_right r)
          (λ absent. (n (rw e absent)).0) h,
      upsert-IsUnique row rows (λ absent. (n (rw e absent)).1) hs,
    )
  ]

  pub update_where-IsUnique :
      (rows : List R)
      → IsUnique env label rows
      → IsUnique env label (update_where is_key merge rows)
  unfolding update_where
  update_where-IsUnique [] _ = tt
  update_where-IsUnique (r ∷ rows) (h, hs) =
      let kept = update_where-All (Apart env label r) is_key merge rows (merged-Apart_right r) h in
      elim (Bool-cases (is_key r)) [
        | inl e ↦ rw e (All-mono (merged-Apart_left r) _ kept, update_where-IsUnique rows hs)
        | inr e ↦ rw e (kept, update_where-IsUnique rows hs)
      ]

module _ {R : Type 0} (env : R → Text) (order : R → ℕ) where
  max_order_bound :
      (e : Text) (rows : List R) (n : ℕ)
      → max_order (λ r. same (env r) e) order rows ≤ n
      → All (λ r. env r ≡ e → order r ≤ n) rows
  unfolding max_order
  max_order_bound e [] n h = tt
  max_order_bound e (r ∷ rows) n h = elim (Bool-cases (same (env r) e)) [
    | inl p ↦
        let b : max (order r) (max_order (λ q. same (env q) e) order rows) ≤ n = rw p at h in
        (λ _. omega arith, max_order_bound e rows n (omega arith))
    | inr p ↦ (λ q. absurd (ground arith), max_order_bound e rows n (rw p at h))
  ]

  -- The next order of an environment is apart from all orders that it has.
  pub next_order-Apart :
      (row : R) (rows : List R)
      → order row ≡ max_order (λ r. same (env r) (env row)) order rows + 1
      → All (λ r. Apart env order r row) rows
  next_order-Apart row rows h =
      All-mono (λ r below e same_order. absurd (omega (arith, below e))) rows
        (max_order_bound (env row) rows (max_order (λ r. same (env r) (env row)) order rows)
          (omega arith))

module _ {R : Type 0} (env id : R → Text) where
  -- A row whose key no row has is apart from all rows.
  pub absent-Apart :
      (row : R) (rows : List R)
      → find (λ r. same (env r) (env row) && same (id r) (id row)) rows ≡ none
      → All (λ r. Apart env id r row) rows
  unfolding find
  absent-Apart row [] h = tt
  absent-Apart row (r ∷ rows) h = (λ e f. ground (arith, h), absent-Apart row rows (ground arith))

-- The order that a row keeps, or is given: its own if it has one, and the next one otherwise.
abbrev pub order_from : Option ℕ → ℕ → ℕ
order_from none next = next
order_from (some k) next = if k == 0 then next else k

module _ {R : Type 0} (env id : R → Text) (order : R → ℕ) (merge : R → R)
    (keeps : (r : R)
      → (env (merge r) ≡ env r) × (id (merge r) ≡ id r) × (order (merge r) ≡ order r)) where
  abbrev is_key_of : R → R → Bool
  is_key_of row r = same (env r) (env row) && same (id r) (id row)

  pub upsert-keys :
      (row : R) (rows : List R)
      → IsUnique env id rows
      → IsUnique env id (upsert (is_key_of row) merge row rows)
  upsert-keys row rows u =
      upsert-IsUnique env id (is_key_of row) merge (λ r. ((keeps r).0, (keeps r).1)) row rows
        (absent-Apart env id row rows) u

  -- A row that is new gets the next order, so the orders stay apart.
  pub upsert-orders :
      (row : R) (rows : List R)
      → order row
        ≡ order_from
            (Option.map order (find (is_key_of row) rows))
            (max_order (λ r. same (env r) (env row)) order rows + 1)
      → IsUnique env order rows
      → IsUnique env order (upsert (is_key_of row) merge row rows)
  upsert-orders row rows e u =
      upsert-IsUnique env order (is_key_of row) merge (λ r. ((keeps r).0, (keeps r).2)) row rows
        (λ absent. next_order-Apart env order row rows (ground arith)) u

module _ {R : Type 0} where
  find-All :
      (P : R → Type 0) (is_key : R → Bool) (rows : List R) {r : R}
      → All P rows
      → find is_key rows ≡ some r
      → P r
  unfolding find
  find-All P is_key [] h e = cc
  find-All P is_key (q ∷ rows) (h, hs) e = elim (Bool-cases (is_key q)) [
    | inl k ↦ subst P (some-same (rw k at e)) h
    | inr k ↦ find-All P is_key rows hs (rw k at e)
  ]

-- Two rows that are found with one label are one row.
module _ {R L : Type 0} (env : R → Text) (label : R → L) (one other : R → Bool) where
  pub IsUnique-find :
      (rows : List R) {r q : R}
      → IsUnique env label rows
      → find one rows ≡ some r
      → find other rows ≡ some q
      → env r ≡ env q
      → label r ≡ label q
      → r ≡ q
  unfolding find
  IsUnique-find [] u e f g h = cc
  IsUnique-find (x ∷ rows) {r} {q} (apart, u) e f g h = elim (Bool-cases (one x)) [
    | inl k ↦ elim (Bool-cases (other x)) [
      | inl l ↦ sym (some-same (rw k at e)) ∙ some-same (rw l at f)
      | inr l ↦
          let first : x ≡ r = some-same (rw k at e) in
          absurd (
            find-All (Apart env label x) other rows apart (rw l at f) (ap env first ∙ g)
              (ap label first ∙ h))
    ]
    | inr k ↦ elim (Bool-cases (other x)) [
      | inl l ↦
          let first : x ≡ q = some-same (rw l at f) in
          absurd (
            find-All (Apart env label x) one rows apart (rw k at e) (ap env first ∙ sym g)
              (ap label first ∙ sym h))
      | inr l ↦ IsUnique-find rows u (rw k at e) (rw l at f) g h
    ]
  ]

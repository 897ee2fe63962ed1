-- ===== src/Prelude/Sorted.antt =====
-- Lists in the order of a key: the sort, and the lists that no other order of their items can be.
use Prim.Native.Nat.{ℕ, ◌≤◌}
use mathlib.Core.Path.{◌≡◌, ap₂, sym, subst}
use mathlib.Core.Logic.{ite, if_pos, if_neg}
use mathlib.Core.Logic.Or
use mathlib.Core.List.{
  List, [], ◌∷◌, Mem, Perm, Pairwise, Pairwise-singleton, mem-cons_self, mem-cons_of_mem,
  eq-or-mem_of_mem-cons,
}
use mathlib.Core.List.Pairwise
use mathlib.Core.List.Perm
use native.Mathlib.Bridge.{le_prop}
use native.Mathlib.Decide.{dec_le}
use native.Mathlib.Nat.{le_trans, le_antisymm}
use native.Mathlib.Omega.{arith}

module _ {ℓ} {A : Type ℓ} (key : A → ℕ) where
  abbrev pub IsAscending : List A → Type ℓ
  IsAscending = Pairwise (λ a b. key a ≤ key b)

  abbrev IsLeast : A → List A → Type ℓ
  IsLeast a l = (x : A) → Mem x l → key a ≤ key x

  IsLeast-cons : {a b : A} {l : List A} → key a ≤ key b → IsLeast a l → IsLeast a (b ∷ l)
  IsLeast-cons {a} p h x m =
      Or.elim le_prop (eq-or-mem_of_mem-cons m) (λ e. subst (λ y. key a ≤ key y) (sym e) p) (h x)

  IsLeast-perm : {a : A} {l r : List A} → Perm l r → IsLeast a r → IsLeast a l
  IsLeast-perm p h x m = h x ((Perm.mem_iff p).0 m)

  IsLeast-head : {a b : A} {l : List A} → key a ≤ key b → IsAscending (b ∷ l) → IsLeast a (b ∷ l)
  IsLeast-head p (Pairwise.cons h _) = IsLeast-cons p (λ x m. le_trans p (h x m))

  -- No two items of a list share a key.
  abbrev pub IsKeyed : List A → Type ℓ
  IsKeyed l = (x y : A) → Mem x l → Mem y l → key x ≡ key y → x ≡ y

  -- Then it has only one ascending order.
  pub IsAscending-eq_of_perm :
      {l r : List A} → IsKeyed l → IsAscending l → IsAscending r → Perm l r → l ≡ r
  IsAscending-eq_of_perm {l = []} _ _ _ p = sym (Perm.eq-nil (Perm.symm p))
  IsAscending-eq_of_perm {l = a ∷ l} {r = []} _ _ _ p = Perm.eq-nil p
  IsAscending-eq_of_perm {l = a ∷ l} {r = b ∷ r} k sl sr p =
      let le_ab : key a ≤ key b =
        IsLeast-perm (Perm.symm p) (IsLeast-head (omega arith) sl) b mem-cons_self in
      let le_ba : key b ≤ key a = IsLeast-perm p (IsLeast-head (omega arith) sr) a mem-cons_self in
      let heads : a ≡ b =
        k a b mem-cons_self ((Perm.mem_iff p).1 mem-cons_self) (le_antisymm le_ab le_ba) in
      let tails = Perm.cons_inv (Perm.trans p (Perm.symm (Perm.cons' heads Perm.rfl))) in
      ap₂ ◌∷◌ heads (
        IsAscending-eq_of_perm {l = l}
          (λ x y m n. k x y (mem-cons_of_mem a m) (mem-cons_of_mem a n)) (Pairwise.of_cons sl)
          (Pairwise.of_cons sr) tails)

  -- An insertion sort.
  unfoldable pub insert_by : A → List A → List A
  insert_by x [] = x ∷ []
  insert_by x (y ∷ ys) = ite (dec_le (key x) (key y)) (x ∷ y ∷ ys) (y ∷ insert_by x ys)

  unfoldable pub sort_by : List A → List A
  unfolding insert_by
  sort_by [] = []
  sort_by (x ∷ xs) = insert_by x (sort_by xs)

  insert_by-perm : (x : A) (l : List A) → Perm (insert_by x l) (x ∷ l)
  unfolding insert_by
  insert_by-perm x [] = Perm.rfl
  insert_by-perm x (y ∷ ys) = elim (dec_le (key x) (key y)) [
    | yes p ↦ rw (if_pos, p, insert_by) Perm.rfl
    | no p ↦
        rw (if_neg, p, insert_by)
          (Perm.trans (Perm.cons y (insert_by-perm x ys)) (Perm.swap x y ys))
  ]

  insert_by-IsAscending : (x : A) {l : List A} → IsAscending l → IsAscending (insert_by x l)
  unfolding insert_by
  insert_by-IsAscending x Pairwise.nil = Pairwise-singleton _ x
  insert_by-IsAscending x (Pairwise.cons {a = y} {l = ys} least s) = elim (dec_le (key x) (key y)) [
    | yes p ↦
        let whole = Pairwise.cons least s in
        rw (if_pos, p, insert_by) (Pairwise.cons (IsLeast-head p whole) whole)
    | no p ↦
        rw (if_neg, p, insert_by)
          (Pairwise.cons (IsLeast-perm (insert_by-perm x ys) (IsLeast-cons (omega arith) least))
            (insert_by-IsAscending x s))
  ]

  pub sort_by-perm : (l : List A) → Perm (sort_by l) l
  unfolding sort_by
  sort_by-perm [] = Perm.rfl
  sort_by-perm (x ∷ xs) = Perm.trans (insert_by-perm x (sort_by xs)) (Perm.cons x (sort_by-perm xs))

  pub sort_by-IsAscending : (l : List A) → IsAscending (sort_by l)
  unfolding sort_by
  sort_by-IsAscending [] = Pairwise.nil
  sort_by-IsAscending (x ∷ xs) = insert_by-IsAscending x (sort_by-IsAscending xs)

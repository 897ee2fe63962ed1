-- ===== src/Content/Orders.antt =====
-- What the two display-order queries find, and the order that a command gives to its row.
use flo_mimi.Prelude.{
  ℕ, true, false, Option, ◌≡◌, sym, ap, ◌∙◌, arith, ◌==◌, Result, ok, wrapped, pure,
}
use mathlib.Core.Path.{subst}
use flo_mimi.Content.Table.Unique.{order_from}
use flo_mimi.Content.Schema.{Tables, Statement}
use flo_mimi.Content.Driver.{Driver, exec}
use flo_mimi.Content.Driver.Rules.{
  Meets, Meets-bind, Meets-pure, Meets-wrapped, Meets-if, Meets-exec, Meets-weaken,
}
use flo_mimi.Content.Campaigns.{
  order_or_zero, lookup_display_order, next_display_order, display_order_of,
}

module _ {A : Type 0} (P : Tables → Type 0) (row : Tables → A) (query : Statement A)
    (reads : (t : Tables) → query t ≡ ok (row t, t)) where
  selected :
      {a b : A} {t t' : Tables}
      → ◌≡◌ {A = Result (A × Tables)} (ok (a, t)) (ok (b, t'))
      → (b ≡ a) × (t' ≡ t)
  selected e = ground arith

  -- A query answers with what it reads, and changes nothing.
  pub query-Meets :
      (driver : Driver) → Meets P P (λ a t. P t × (a ≡ row t)) (exec driver (λ _. query))
  query-Meets driver =
      Meets-exec driver (λ _. query) (λ t p. p)
        (λ n t a t' p e.
          let (same_answer, same_tables) = selected (sym (reads t) ∙ e) in
          subst (λ u. P u × (a ≡ row u)) (sym same_tables) (p, same_answer))

module _ (driver : Driver) (P : Tables → Type 0) (row : Tables → Option ℕ) (next : Tables → ℕ)
    (query : Statement (Option ℕ)) (next_query : Statement ℕ)
    (query-ok : (t : Tables) → query t ≡ ok (row t, t))
    (next_query-ok : (t : Tables) → next_query t ≡ ok (next t, t)) where
  pub lookup_display_order-Meets :
      Meets P P (λ n t. P t × (n ≡ order_or_zero (row t))) (lookup_display_order driver query)
  unfolding lookup_display_order
  lookup_display_order-Meets =
      Meets-bind (λ s. wrapped _ (exec driver (λ _. query) s)) (λ found. pure (order_or_zero found))
        (Meets-wrapped _ (exec driver (λ _. query)) (query-Meets P row query query-ok driver))
        (λ found. Meets-pure (order_or_zero found) (λ t h. (h.0, ap order_or_zero h.1)))

  order_from-zero :
      (t : Tables) (n : ℕ)
      → order_or_zero (row t) ≡ n
      → n == 0 ≡ true
      → order_from (row t) (next t) ≡ next t
  order_from-zero t n h z = ground arith

  order_from-found :
      (t : Tables) (n : ℕ)
      → order_or_zero (row t) ≡ n
      → n == 0 ≡ false
      → order_from (row t) (next t) ≡ n
  order_from-found t n h z = ground arith

  -- The order that a command gives to a row: its own, or the next one.
  pub display_order_of-Meets :
      Meets P P
        (λ n t. P t × (n ≡ order_from (row t) (next t)))
        (display_order_of driver query next_query)
  unfolding display_order_of
  display_order_of-Meets =
      Meets-bind (lookup_display_order driver query) _ lookup_display_order-Meets (λ found.
        Meets-if (found == 0) (next_display_order driver next_query) (pure found)
          (λ z. next-Meets found z)
          (λ z. Meets-pure found (λ t h. (h.0, sym (order_from-found t found (sym h.1) z)))))
    where
      next-Meets :
          (found : ℕ)
          → found == 0 ≡ true
          → Meets
              (λ t. P t × (found ≡ order_or_zero (row t)))
              P
              (λ n t. P t × (n ≡ order_from (row t) (next t)))
              (next_display_order driver next_query)
      next-Meets found z = Meets-wrapped _ (exec driver (λ _. next_query)) (
          Meets-weaken (exec driver (λ _. next_query)) (λ t h. h.0)
            (λ n t h. (h.0.0, h.1 ∙ sym (order_from-zero t found (sym h.0.1) z)))
            (query-Meets (λ t. P t × (found ≡ order_or_zero (row t))) next next_query next_query-ok
              driver))

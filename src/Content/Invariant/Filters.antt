-- ===== src/Content/Invariant/Filters.antt =====
-- `ensureFilterExistsTx` keeps the tables consistent.
use flo_mimi.Prelude.{
  ℕ, ◌+◌, true, [], Option, ◌≡◌, refl, sym, ap, ◌∙◌, arith, Text, same, ◌==◌, Result, ok, err,
}
use mathlib.Core.Path.{subst}
use mathlib.Core.Option
use flo_mimi.Text.{trim_space}
use flo_mimi.Content.Table.{find, upsert, max_order}
use flo_mimi.Content.Table.Unique.{order_from, upsert-keys, upsert-orders}
use flo_mimi.Content.Schema
use flo_mimi.Content.Schema.{Tables, Campaign, Subscriber, Filter, Statement}
use flo_mimi.Content.Driver.{Driver, Session, exec}
use flo_mimi.Content.Driver.Rules.{
  Meets, Post, Meets-bind, Meets-pure, Meets-wrapped, Meets-if, Meets-exec, Meets-weaken,
}
use flo_mimi.Content.Campaigns.{order_or_zero, next_display_order}
use flo_mimi.Content.Subscribers.{inserting_filter, insert_next_filter, ensure_filter_exists}
use flo_mimi.Content.Orders.{query-Meets, lookup_display_order-Meets}
use package.flo_mimi.Content.Invariant.{IsConsistent, known-ok}

-- The filters: looked up, and appended with the next order.
filter_order : Text → Text → Tables → Option ℕ
filter_order env label t =
    Option.map (λ (r : Filter). r.display_order) (find (Schema.is_filter env label) t.filters)

next_filter_order : Text → Tables → ℕ
next_filter_order env t =
    max_order (λ (r : Filter). same r.environment env) (λ r. r.display_order) t.filters + 1

filter_order-reads :
    (env label : Text) (t : Tables)
    → Schema.select_filter_order env label t ≡ ok (filter_order env label t, t)
unfolding Schema.select_filter_order filter_order
filter_order-reads env label t = refl

next_filter_order-reads :
    (env : Text) (t : Tables)
    → Schema.select_next_filter_order env t ≡ ok (next_filter_order env t, t)
unfolding Schema.select_next_filter_order next_filter_order
next_filter_order-reads env t = refl

abbrev with_filter : Filter → Tables → Tables
with_filter row t = record t {
  filters = upsert (Schema.is_filter row.environment row.filter_label) (λ r. r) row t.filters;
}

insert_filter-ok :
    (row : Filter) (t : Tables) (a : Unit {0}) (t' : Tables)
    → Schema.insert_filter row t ≡ ok (a, t')
    → t' ≡ with_filter row t
unfolding Schema.insert_filter
insert_filter-ok row t a t' h = ap (λ r. r.1) (known-ok _ t (tt, with_filter row t) (a, t') h)

with_filter-IsConsistent :
    (row : Filter) (t : Tables)
    → IsConsistent t
    → row.display_order
      ≡ order_from
          (filter_order row.environment row.filter_label t)
          (next_filter_order row.environment t)
    → IsConsistent (with_filter row t)
unfolding filter_order next_filter_order
with_filter-IsConsistent row t k e = record {
  campaign_keys = k.campaign_keys;
  campaign_orders = k.campaign_orders;
  audiences = k.audiences;
  subscriber_keys = k.subscriber_keys;
  subscriber_orders = k.subscriber_orders;
  filter_keys =
      upsert-keys _ _ (λ r. r.display_order) (λ r. r) (λ r. (refl, refl, refl)) row t.filters
        k.filter_keys;
  filter_orders =
      upsert-orders _ (λ r. r.filter_label) _ (λ r. r) (λ r. (refl, refl, refl)) row t.filters e
        k.filter_orders;
}

module _ (driver : Driver) (env : Text) where
  Post-inserting_filter :
      (label : Text) (r : Result (Unit {0}) × Session)
      → Post IsConsistent (λ _. IsConsistent) r
      → Post IsConsistent (λ _. IsConsistent) (inserting_filter label r)
  Post-inserting_filter label (ok u, s) h = h
  Post-inserting_filter label (err e, s) h = h

  next_filter-ok :
      (label : Text) (next : ℕ)
      → Meets
          (λ t.
            IsConsistent t
            × (next ≡ order_from (filter_order env label t) (next_filter_order env t)))
          IsConsistent
          (λ _. IsConsistent)
          (exec driver (λ _.
            Schema.insert_filter
              (record { environment = env; filter_label = label; display_order = next })))
  next_filter-ok label next =
      Meets-exec driver _ (λ t h. h.0)
        (λ _ t a t' h e.
          subst IsConsistent (sym (insert_filter-ok _ t a t' e))
            (with_filter-IsConsistent _ t h.0 h.1))

  zero_order :
      (found : Option ℕ) (n next : ℕ)
      → n ≡ order_or_zero found
      → n == 0 ≡ true
      → next ≡ order_from found next
  zero_order found n next h z = ground arith

  -- A filter is inserted when it has no order, so it goes behind the others.
  insert_next_filter-Meets :
      (label : Text) (n : ℕ)
      → n == 0 ≡ true
      → Meets
          (λ t. IsConsistent t × (n ≡ order_or_zero (filter_order env label t)))
          IsConsistent
          (λ _. IsConsistent)
          (insert_next_filter driver env label)
  unfolding insert_next_filter next_display_order
  insert_next_filter-Meets label n z =
      Meets-bind _ _
        (Meets-wrapped _ _ (
          Meets-weaken _ (λ t h. h.0)
            (λ next t h. (
              h.0.0,
              h.1 ∙ zero_order (filter_order env label t) n (next_filter_order env t) h.0.1 z,
            ))
            (query-Meets (λ t. IsConsistent t × (n ≡ order_or_zero (filter_order env label t)))
              (next_filter_order env) _ (next_filter_order-reads env) driver)))
        (λ next. record {
          run = λ s h. Post-inserting_filter label _ ((next_filter-ok label next).run s h);
        })

  pub ensure_filter_exists-Meets :
      (label : Text)
      → Meets IsConsistent IsConsistent (λ _. IsConsistent) (ensure_filter_exists driver env label)
  unfolding ensure_filter_exists
  ensure_filter_exists-Meets label_text =
      let label = trim_space label_text in
      Meets-if (same label []) _ _ (λ _. Meets-pure tt (λ t k. k))
        (λ _.
          Meets-bind _ _
            (lookup_display_order-Meets driver IsConsistent (filter_order env label)
              (next_filter_order env) _ (Schema.select_next_filter_order env)
              (filter_order-reads env label) (next_filter_order-reads env))
            (λ n.
              Meets-if (n == 0) _ _ (λ z. insert_next_filter-Meets label n z)
                (λ _. Meets-pure tt (λ t h. h.0))))

-- ===== src/Content/Invariant/Subscribers.antt =====
-- The transaction of `createSubscriber` keeps the tables consistent.
use flo_mimi.Prelude.{ℕ, ◌+◌, [], ◌∷◌, List, Option, ◌≡◌, refl, sym, ap, arith, Text, same, ok}
use mathlib.Core.Path.{subst}
use mathlib.Core.Option
use flo_mimi.Clock.{Time}
use flo_mimi.Command.{Command}
use flo_mimi.Content.Table.{find, upsert, max_order}
use flo_mimi.Content.Table.Unique.{order_from, upsert-keys, upsert-orders}
use flo_mimi.Content.Metadata.{resolve_subscriber_id}
use flo_mimi.Content.Schema
use flo_mimi.Content.Schema.{Tables, Campaign, Subscriber, Filter, Statement}
use flo_mimi.Content.Driver.{Driver, exec}
use flo_mimi.Content.Driver.Rules.{
  Meets, Meets-bind, Meets-pure, Meets-wrapped, Meets-exec, Meets-transact,
}
use flo_mimi.Content.Campaigns.{display_order_of}
use flo_mimi.Content.Subscribers.{
  subscriber_row, assigned_segments, filter_tags, insert_segments, assign_filters, write_subscriber,
  create_subscriber,
}
use flo_mimi.Content.Orders.{display_order_of-Meets}
use package.flo_mimi.Content.Invariant.{IsConsistent, SameRows, SameRows-IsConsistent, known-ok}
use package.flo_mimi.Content.Invariant.Filters.{ensure_filter_exists-Meets}

subscriber_order : Text → Text → Tables → Option ℕ
subscriber_order env id t =
    Option.map (λ (r : Subscriber). r.display_order)
      (find (Schema.is_subscriber env id) t.subscribers)

next_subscriber_order : Text → Tables → ℕ
next_subscriber_order env t =
    max_order (λ (r : Subscriber). same r.environment env) (λ r. r.display_order) t.subscribers + 1

subscriber_order-reads :
    (env id : Text) (t : Tables)
    → Schema.select_subscriber_order env id t ≡ ok (subscriber_order env id t, t)
unfolding Schema.select_subscriber_order subscriber_order
subscriber_order-reads env id t = refl

next_subscriber_order-reads :
    (env : Text) (t : Tables)
    → Schema.select_next_subscriber_order env t ≡ ok (next_subscriber_order env t, t)
unfolding Schema.select_next_subscriber_order next_subscriber_order
next_subscriber_order-reads env t = refl

abbrev with_subscriber : Subscriber → Tables → Tables
with_subscriber row t = record t {
  subscribers =
      upsert (Schema.is_subscriber row.environment row.subscriber_id) (Schema.merge_subscriber row)
        row t.subscribers;
}

upsert_subscriber-ok :
    (row : Subscriber) (t : Tables) (a : Unit {0}) (t' : Tables)
    → Schema.upsert_subscriber row t ≡ ok (a, t')
    → t' ≡ with_subscriber row t
unfolding Schema.upsert_subscriber
upsert_subscriber-ok row t a t' h =
    ap (λ r. r.1) (known-ok _ t (tt, with_subscriber row t) (a, t') h)

with_subscriber-IsConsistent :
    (row : Subscriber) (t : Tables)
    → IsConsistent t
    → row.display_order
      ≡ order_from
          (subscriber_order row.environment row.subscriber_id t)
          (next_subscriber_order row.environment t)
    → IsConsistent (with_subscriber row t)
unfolding subscriber_order next_subscriber_order
with_subscriber-IsConsistent row t k e = record {
  campaign_keys = k.campaign_keys;
  campaign_orders = k.campaign_orders;
  audiences = k.audiences;
  subscriber_keys =
      upsert-keys _ _ (λ r. r.display_order) (Schema.merge_subscriber row) (λ r. (refl, refl, refl))
        row t.subscribers k.subscriber_keys;
  subscriber_orders =
      upsert-orders _ (λ r. r.subscriber_id) _ (Schema.merge_subscriber row)
        (λ r. (refl, refl, refl)) row t.subscribers e k.subscriber_orders;
  filter_keys = k.filter_keys;
  filter_orders = k.filter_orders;
}

module _ (driver : Driver) (env : Text) where
  upsert_subscriber-Meets :
      (id : Text) (c : Command) (n : ℕ)
      → Meets
          (λ t.
            IsConsistent t
            × (n ≡ order_from (subscriber_order env id t) (next_subscriber_order env t)))
          IsConsistent
          (λ _. IsConsistent)
          (exec driver (λ now. Schema.upsert_subscriber (subscriber_row env id c n now)))
  unfolding subscriber_row
  upsert_subscriber-Meets id c n =
      Meets-exec driver _ (λ t h. h.0)
        (λ now t a t' h e.
          subst IsConsistent (sym (upsert_subscriber-ok (subscriber_row env id c n now) t a t' e))
            (with_subscriber-IsConsistent (subscriber_row env id c n now) t h.0 h.1))

  -- A statement on the other tables.
  other-Meets :
      {A : Type 0} (statement : Statement A)
      → ((t : Tables) (a : A) (t' : Tables) → statement t ≡ ok (a, t') → SameRows t t')
      → Meets IsConsistent IsConsistent (λ _. IsConsistent) (exec driver (λ _. statement))
  other-Meets statement same_rows =
      Meets-exec driver (λ _. statement) (λ t k. k)
        (λ _ t a t' k e. SameRows-IsConsistent t t' (same_rows t a t' e) k)

  clear_segments-SameRows :
      (id : Text) (t : Tables) (a : _) (t' : Tables)
      → Schema.clear_segments env id t ≡ ok (a, t')
      → SameRows t t'
  unfolding Schema.clear_segments
  clear_segments-SameRows id t a t' e = ground arith

  clear_assignments-SameRows :
      (id : Text) (t : Tables) (a : _) (t' : Tables)
      → Schema.clear_assignments env id t ≡ ok (a, t')
      → SameRows t t'
  unfolding Schema.clear_assignments
  clear_assignments-SameRows id t a t' e = ground arith

  insert_segment-SameRows :
      (row : Schema.SubscriberSegment) (t : Tables) (a : _) (t' : Tables)
      → Schema.insert_segment row t ≡ ok (a, t')
      → SameRows t t'
  unfolding Schema.insert_segment
  insert_segment-SameRows row t a t' e = ground arith

  insert_assignment-SameRows :
      (row : Schema.FilterAssignment) (t : Tables) (a : _) (t' : Tables)
      → Schema.insert_assignment row t ≡ ok (a, t')
      → SameRows t t'
  unfolding Schema.insert_assignment
  insert_assignment-SameRows row t a t' e = ground arith

  insert_segments-Meets :
      (id : Text) (index : ℕ) (segments : List Text)
      → Meets IsConsistent IsConsistent
          (λ _. IsConsistent)
          (insert_segments driver env id index segments)
  unfolding insert_segments
  insert_segments-Meets id index [] = Meets-pure tt (λ t k. k)
  insert_segments-Meets id index (segment ∷ segments) =
      Meets-bind _ _ (Meets-wrapped _ _ (other-Meets _ (insert_segment-SameRows _)))
        (λ _. insert_segments-Meets id (index + 1) segments)

  assign_filters-Meets :
      (id : Text) (labels : List Text)
      → Meets IsConsistent IsConsistent (λ _. IsConsistent) (assign_filters driver env id labels)
  unfolding assign_filters
  assign_filters-Meets id [] = Meets-pure tt (λ t k. k)
  assign_filters-Meets id (label ∷ labels) =
      Meets-bind _ _ (ensure_filter_exists-Meets driver env label) (λ _.
        Meets-bind _ _ (Meets-wrapped _ _ (other-Meets _ (insert_assignment-SameRows _)))
          (λ _. assign_filters-Meets id labels))

  write_subscriber-Meets :
      (c : Command) (id : Text)
      → Meets IsConsistent IsConsistent (λ _. IsConsistent) (write_subscriber driver env c id)
  unfolding write_subscriber
  write_subscriber-Meets c id =
      Meets-bind (display_order_of driver _ _) _
        (display_order_of-Meets driver IsConsistent (subscriber_order env id)
          (next_subscriber_order env) _ _ (subscriber_order-reads env id)
          (next_subscriber_order-reads env))
        (λ n. Meets-bind _ _ (Meets-wrapped _ _ (upsert_subscriber-Meets id c n)) (λ _.
          Meets-bind _ _ (Meets-wrapped _ _ (other-Meets _ (clear_segments-SameRows id))) (λ _.
            Meets-bind _ _ (Meets-wrapped _ _ (other-Meets _ (clear_assignments-SameRows id))) (λ _.
              Meets-bind _ _ (insert_segments-Meets id 0 (assigned_segments c))
                (λ _. assign_filters-Meets id (filter_tags c))))))

  pub create_subscriber-Meets :
      (now : Time) (c : Command)
      → Meets IsConsistent IsConsistent (λ _. IsConsistent) (create_subscriber driver env now c)
  unfolding create_subscriber
  create_subscriber-Meets now c =
      Meets-transact driver _ (write_subscriber-Meets c (resolve_subscriber_id c now))

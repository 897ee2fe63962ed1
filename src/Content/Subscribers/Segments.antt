-- ===== src/Content/Subscribers/Segments.antt =====
-- What `createSubscriber` leaves in the segments of the subscriber, and that it leaves campaigns alone.
use flo_mimi.Prelude.{
  ℕ, ◌+◌, [], ◌∷◌, ◌++◌, List, Option, ◌≡◌, refl, sym, ap, ◌∙◌, arith, append_assoc, append-nil,
  Text, same, ◌==◌, Result, ok, err,
}
use mathlib.Core.Path.{subst}
use flo_mimi.Text.{trim_space}
use flo_mimi.Clock.{Time}
use flo_mimi.Command.{Command}
use flo_mimi.Content.Table.{delete_where}
use flo_mimi.Content.Metadata.{resolve_subscriber_id}
use flo_mimi.Content.Schema
use flo_mimi.Content.Schema.{
  Tables, Campaign, CampaignAnalytics, SubscriberSegment, Statement, is_segment_of,
}
use flo_mimi.Content.Driver.{Driver, Session, exec}
use flo_mimi.Content.Driver.Rules.{
  Meets, Post, Meets-bind, Meets-pure, Meets-wrapped, Meets-if, Meets-exec, Meets-transact,
}
use flo_mimi.Content.Campaigns.{lookup_display_order, next_display_order, display_order_of}
use flo_mimi.Content.Subscribers.{
  subscriber_row, assigned_segments, filter_tags, inserting_filter, insert_next_filter,
  ensure_filter_exists, insert_segments, assign_filters, write_subscriber, create_subscriber,
}

-- The rows of the labels, numbered from `index + 1` on.
unfoldable pub segment_rows : Text → Text → ℕ → List Text → List SubscriberSegment
segment_rows env id index [] = []
segment_rows env id index (segment ∷ segments) =
    record {
      environment = env;
      subscriber_id = id;
      segment_label = segment;
      display_order = index + 1;
    }
    ∷ segment_rows env id (index + 1) segments

-- The tables that a statement on the other tables keeps.
abbrev Keeps : Tables → Tables → Type 0
Keeps t t' =
    (t'.segments ≡ t.segments) × (t'.campaigns ≡ t.campaigns) × (t'.analytics ≡ t.analytics)

module _ (driver : Driver) (env : Text) (cs : List Campaign) (stats : List CampaignAnalytics) where
  -- The segments are these, and the campaigns and their statistics those.
  Holds : List SubscriberSegment → Tables → Type 0
  Holds rows t = (t.segments ≡ rows) × (t.campaigns ≡ cs) × (t.analytics ≡ stats)

  abbrev Anything : Tables → Type 0
  Anything t = Unit

  kept-Meets :
      {A : Type 0} (rows : List SubscriberSegment) (statement : ℕ → Statement A)
      → ((n : ℕ) (t : Tables) (a : A) (t' : Tables) → statement n t ≡ ok (a, t') → Keeps t t')
      → Meets (Holds rows) Anything (λ _. Holds rows) (exec driver statement)
  unfolding Holds
  kept-Meets rows statement keeps =
      Meets-exec driver statement (λ t h. tt)
        (λ n t a t' h e. let k = keeps n t a t' e in (k.0 ∙ h.0, k.1 ∙ h.1, k.2 ∙ h.2))

  lookup-Meets :
      (rows : List SubscriberSegment) (query : Statement (Option ℕ))
      → ((t : Tables) (a : _) (t' : Tables) → query t ≡ ok (a, t') → Keeps t t')
      → Meets (Holds rows) Anything (λ _. Holds rows) (lookup_display_order driver query)
  unfolding lookup_display_order
  lookup-Meets rows query keeps =
      Meets-bind _ _ (Meets-wrapped _ _ (kept-Meets rows (λ _. query) (λ _. keeps)))
        (λ _. Meets-pure _ (λ t h. h))

  next-Meets :
      (rows : List SubscriberSegment) (query : Statement ℕ)
      → ((t : Tables) (a : _) (t' : Tables) → query t ≡ ok (a, t') → Keeps t t')
      → Meets (Holds rows) Anything (λ _. Holds rows) (next_display_order driver query)
  unfolding next_display_order
  next-Meets rows query keeps = Meets-wrapped _ _ (kept-Meets rows (λ _. query) (λ _. keeps))

  order-Meets :
      (rows : List SubscriberSegment) (id : Text)
      → Meets
          (Holds rows)
          Anything
          (λ _. Holds rows)
          (display_order_of driver
            (Schema.select_subscriber_order env id)
            (Schema.select_next_subscriber_order env))
  unfolding display_order_of Schema.select_subscriber_order Schema.select_next_subscriber_order
  order-Meets rows id = Meets-bind _ _ (lookup-Meets rows _ (λ t a t' e. ground arith)) (λ n.
      Meets-if (n == 0) _ _ (λ _. next-Meets rows _ (λ t a t' e. ground arith))
        (λ _. Meets-pure _ (λ t h. h)))

  Post-inserting_filter :
      (rows : List SubscriberSegment) (label : Text) (r : Result (Unit {0}) × Session)
      → Post Anything (λ _. Holds rows) r
      → Post Anything (λ _. Holds rows) (inserting_filter label r)
  Post-inserting_filter rows label (ok u, s) h = h
  Post-inserting_filter rows label (err e, s) h = h

  filter-Meets :
      (rows : List SubscriberSegment) (label : Text)
      → Meets (Holds rows) Anything (λ _. Holds rows) (ensure_filter_exists driver env label)
  unfolding ensure_filter_exists insert_next_filter Schema.select_filter_order
      Schema.select_next_filter_order Schema.insert_filter
  filter-Meets rows label_text =
      let label = trim_space label_text in
      Meets-if (same label []) _ _ (λ _. Meets-pure tt (λ t k. k))
        (λ _. Meets-bind _ _ (lookup-Meets rows _ (λ t a t' e. ground arith)) (λ n.
          Meets-if (n == 0) _ _
            (λ _. Meets-bind _ _ (next-Meets rows _ (λ t a t' e. ground arith)) (λ next. record {
              run = λ s h.
                  Post-inserting_filter rows label _
                    ((kept-Meets rows _ (λ n t a t' e. ground arith)).run s h);
            }))
            (λ _. Meets-pure tt (λ t k. k))))

  filters-Meets :
      (rows : List SubscriberSegment) (id : Text) (labels : List Text)
      → Meets (Holds rows) Anything (λ _. Holds rows) (assign_filters driver env id labels)
  unfolding assign_filters Schema.insert_assignment
  filters-Meets rows id [] = Meets-pure tt (λ t k. k)
  filters-Meets rows id (label ∷ labels) = Meets-bind _ _ (filter-Meets rows label) (λ _.
      Meets-bind _ _ (Meets-wrapped _ _ (kept-Meets rows _ (λ n t a t' e. ground arith)))
        (λ _. filters-Meets rows id labels))

  upsert-Meets :
      (rows : List SubscriberSegment) (c : Command) (id : Text) (order : ℕ)
      → Meets
          (Holds rows)
          Anything
          (λ _. Holds rows)
          (exec driver (λ now. Schema.upsert_subscriber (subscriber_row env id c order now)))
  unfolding Schema.upsert_subscriber
  upsert-Meets rows c id order = kept-Meets rows _ (λ n t a t' e. ground arith)

  clear_assignments-Meets :
      (rows : List SubscriberSegment) (id : Text)
      → Meets
          (Holds rows)
          Anything
          (λ _. Holds rows)
          (exec driver (λ _. Schema.clear_assignments env id))
  unfolding Schema.clear_assignments
  clear_assignments-Meets rows id = kept-Meets rows _ (λ n t a t' e. ground arith)

  cleared :
      (id : Text) (t : Tables) (a : Unit {0}) (t' : Tables)
      → Schema.clear_segments env id t ≡ ok (a, t')
      → (t'.segments ≡ delete_where (is_segment_of env id) t.segments)
        × (t'.campaigns ≡ t.campaigns)
        × (t'.analytics ≡ t.analytics)
  unfolding Schema.clear_segments
  cleared id t a t' e = ground arith

  clear_segments-Meets :
      (rows : List SubscriberSegment) (id : Text)
      → Meets
          (Holds rows)
          Anything
          (λ _. Holds (delete_where (is_segment_of env id) rows))
          (exec driver (λ _. Schema.clear_segments env id))
  unfolding Holds
  clear_segments-Meets rows id =
      Meets-exec driver _ (λ t h. tt)
        (λ n t a t' h e.
          let k = cleared id t a t' e in
          (k.0 ∙ ap (delete_where (is_segment_of env id)) h.0, k.1 ∙ h.1, k.2 ∙ h.2))

  inserted :
      (row : SubscriberSegment) (t : Tables) (a : Unit {0}) (t' : Tables)
      → Schema.insert_segment row t ≡ ok (a, t')
      → (t'.segments ≡ t.segments ++ (row ∷ []))
        × (t'.campaigns ≡ t.campaigns)
        × (t'.analytics ≡ t.analytics)
  unfolding Schema.insert_segment
  inserted row t a t' e = ground arith

  insert_segment-Meets :
      (rows : List SubscriberSegment) (row : SubscriberSegment)
      → Meets
          (Holds rows)
          Anything
          (λ _. Holds (rows ++ (row ∷ [])))
          (exec driver (λ _. Schema.insert_segment row))
  unfolding Holds
  insert_segment-Meets rows row =
      Meets-exec driver _ (λ t h. tt)
        (λ n t a t' h e.
          let k = inserted row t a t' e in
          (k.0 ∙ ap (λ q. q ++ (row ∷ [])) h.0, k.1 ∙ h.1, k.2 ∙ h.2))

  segments-Meets :
      (rows : List SubscriberSegment) (id : Text) (index : ℕ) (segments : List Text)
      → Meets
          (Holds rows)
          Anything
          (λ _. Holds (rows ++ segment_rows env id index segments))
          (insert_segments driver env id index segments)
  unfolding insert_segments segment_rows
  segments-Meets rows id index [] =
      Meets-pure tt (λ t h. subst (λ q. Holds q t) (sym (append-nil rows)) h)
  segments-Meets rows id index (segment ∷ segments) =
      let row : SubscriberSegment = record {
        environment = env;
        subscriber_id = id;
        segment_label = segment;
        display_order = index + 1;
      } in
      Meets-bind _ _ (Meets-wrapped _ _ (insert_segment-Meets rows row)) (λ _.
        subst
          (λ q.
            Meets (Holds (rows ++ (row ∷ []))) Anything (λ _. Holds q)
              (insert_segments driver env id (index + 1) segments))
          (append_assoc rows (row ∷ []) (segment_rows env id (index + 1) segments))
          (segments-Meets (rows ++ (row ∷ [])) id (index + 1) segments))

  write_subscriber-Meets :
      (rows : List SubscriberSegment) (c : Command) (id : Text)
      → Meets
          (Holds rows)
          Anything
          (λ _. Holds (
            delete_where (is_segment_of env id) rows
            ++ segment_rows env id 0 (assigned_segments c)))
          (write_subscriber driver env c id)
  unfolding write_subscriber
  write_subscriber-Meets rows c id =
      let left = delete_where (is_segment_of env id) rows in
      Meets-bind _ _ (order-Meets rows id) (λ n.
        Meets-bind _ _ (Meets-wrapped _ _ (upsert-Meets rows c id n)) (λ _.
          Meets-bind _ _ (Meets-wrapped _ _ (clear_segments-Meets rows id)) (λ _.
            Meets-bind _ _ (Meets-wrapped _ _ (clear_assignments-Meets left id)) (λ _.
              Meets-bind _ _ (segments-Meets left id 0 (assigned_segments c)) (λ _.
                filters-Meets (left ++ segment_rows env id 0 (assigned_segments c)) id
                  (filter_tags c))))))

-- A command that stored a subscriber left its segments as the list of the command, numbered from 1,
-- in place of those that it had, and no segment of another subscriber, campaign or statistics changed.
pub create_subscriber-segments :
    (driver : Driver) (env : Text) (now : Time) (c : Command) (s : Session) {s' : Session}
    → create_subscriber driver env now c s ≡ (ok tt, s')
    → (s'.tables.segments
        ≡ delete_where (is_segment_of env (resolve_subscriber_id c now)) s.tables.segments
          ++ segment_rows env (resolve_subscriber_id c now) 0 (assigned_segments c))
      × (s'.tables.campaigns ≡ s.tables.campaigns)
      × (s'.tables.analytics ≡ s.tables.analytics)
unfolding create_subscriber Holds
create_subscriber-segments driver env now c s h =
    subst (Post _ (λ _. Holds driver env s.tables.campaigns s.tables.analytics _)) h (
      (Meets-transact driver _ (
          write_subscriber-Meets driver env s.tables.campaigns s.tables.analytics s.tables.segments
            c (resolve_subscriber_id c now))).run
        s (refl, refl, refl))

-- ===== src/Content/Subscribers.antt =====
-- `createSubscriber` and `ensureFilterExistsTx`: one transaction.
pub mod Segments
use flo_mimi.Prelude.{
  ℕ, ◌+◌, true, [], ◌∷◌, List, Text, codes, same, ◌==◌, if◌then◌else◌, Result, ok, err, Action,
  wrapped, wrap_quoted, pure, ◌>>=◌, ◌>>◌,
}
use flo_mimi.Text.{trim_space}
use flo_mimi.Clock.{Time}
use flo_mimi.Command.{Command}
use flo_mimi.Content.Metadata.{
  metadata_string, metadata_strings, resolve_subscriber_id, generated_subscriber_email,
}
use flo_mimi.Content.Schema.{
  Subscriber, select_subscriber_order, select_next_subscriber_order, upsert_subscriber,
  clear_segments, clear_assignments, insert_segment, select_filter_order, select_next_filter_order,
  insert_filter, insert_assignment,
}
use flo_mimi.Content.Driver.{Driver, Session, exec, transact}
use flo_mimi.Content.Campaigns.{lookup_display_order, next_display_order, display_order_of}

-- The row that the command asks for, at the server's time.
unfoldable pub subscriber_row : Text → Text → Command → ℕ → ℕ → Subscriber
unfolding metadata_string generated_subscriber_email
subscriber_row env subscriber_id c display_order now = record {
  environment = env;
  subscriber_id = subscriber_id;
  name = metadata_string c.metadata (codes "name") (codes "Curated Contact");
  email = metadata_string c.metadata (codes "email") (generated_subscriber_email subscriber_id);
  security_status = metadata_string c.metadata (codes "securityStatus") (codes "Encrypted");
  created_at = now;
  last_interaction_at = now;
  tone = metadata_string c.metadata (codes "tone") (codes "primary");
  is_featured = true;
  display_order = display_order;
}

unfoldable pub assigned_segments : Command → List Text
unfolding metadata_strings
assigned_segments c =
    metadata_strings c.metadata (codes "assignedSegments") (codes "Priority Review" ∷ [])

unfoldable pub filter_tags : Command → List Text
unfolding metadata_strings
filter_tags c = metadata_strings c.metadata (codes "filterTags") (codes "Newly Verified" ∷ [])

-- An error that quotes the filter's label.
abbrev pub inserting_filter : Text → Result (Unit {0}) × Session → Result (Unit {0}) × Session
inserting_filter label (ok u, s) = (ok u, s)
inserting_filter label (err e, s) = (err (wrap_quoted (codes "insert filter ") label e), s)

module _ (driver : Driver) (env : Text) where
  -- A new filter goes behind the others.
  unfoldable pub insert_next_filter : Text → Action Session (Unit {0})
  unfolding exec next_display_order
  insert_next_filter label = do
    display_order ← next_display_order driver (select_next_filter_order env)
    λ s. inserting_filter label (
        exec driver
          (λ _.
            insert_filter
              (record { environment = env; filter_label = label; display_order = display_order }))
          s)

  unfoldable pub ensure_filter_exists : Text → Action Session (Unit {0})
  unfolding lookup_display_order insert_next_filter
  ensure_filter_exists label_text =
      let label = trim_space label_text in
      if same label [] then pure tt else do
        existing_order ← lookup_display_order driver (select_filter_order env label)
        if existing_order == 0 then insert_next_filter label else pure tt

  -- for index, segment := range assignedSegments
  unfoldable pub insert_segments : Text → ℕ → List Text → Action Session (Unit {0})
  unfolding exec
  insert_segments id index [] = pure tt
  insert_segments id index (segment ∷ segments) = do
    λ s. wrapped (codes "insert subscriber segment") (
        exec driver
          (λ _. insert_segment (record {
            environment = env;
            subscriber_id = id;
            segment_label = segment;
            display_order = index + 1;
          }))
          s)
    insert_segments id (index + 1) segments

  -- for _, filterLabel := range filterTags
  unfoldable pub assign_filters : Text → List Text → Action Session (Unit {0})
  unfolding exec ensure_filter_exists
  assign_filters id [] = pure tt
  assign_filters id (label ∷ labels) = do
    ensure_filter_exists label
    λ s. wrapped (codes "insert subscriber filter assignment") (
        exec driver
          (λ _.
            insert_assignment
              (record { environment = env; subscriber_id = id; filter_label = label }))
          s)
    assign_filters id labels

  -- The body of the transaction.
  unfoldable pub write_subscriber : Command → Text → Action Session (Unit {0})
  unfolding exec display_order_of insert_segments assign_filters
  write_subscriber c id = do
    display_order ←
        display_order_of driver (select_subscriber_order env id) (select_next_subscriber_order env)
    λ s.
        wrapped (codes "upsert subscriber")
          (exec driver (λ now. upsert_subscriber (subscriber_row env id c display_order now)) s)
    λ s. wrapped (codes "clear subscriber segments") (exec driver (λ _. clear_segments env id) s)
    λ s. wrapped (codes "clear subscriber filters") (exec driver (λ _. clear_assignments env id) s)
    insert_segments id 0 (assigned_segments c)
    assign_filters id (filter_tags c)

  unfoldable pub create_subscriber : Time → Command → Action Session (Unit {0})
  unfolding transact
  create_subscriber now c = transact driver (write_subscriber c (resolve_subscriber_id c now))

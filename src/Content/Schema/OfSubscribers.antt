-- ===== src/Content/Schema/OfSubscribers.antt =====
-- The statements of `createSubscriber` and `ensureFilterExistsTx`.
use flo_mimi.Prelude.{ℕ, ◌+◌, ◌&&◌, [], ◌∷◌, ◌++◌, Option, none, some, Text, codes, same, ok, err}
use flo_mimi.Content.Table.{find, upsert, delete_where, max_order}
use mathlib.Core.Option
use package.flo_mimi.Content.Schema.Rows.{
  Filter, FilterAssignment, Statement, Subscriber, SubscriberSegment, in_known_environment,
  is_assignment_of, is_filter, is_segment_of, is_subscriber, violates,
}

unfoldable pub select_subscriber_order : Text → Text → Statement (Option ℕ)
select_subscriber_order env id t = ok (
  Option.map (λ (r : Subscriber). r.display_order) (find (is_subscriber env id) t.subscribers),
  t,
)

unfoldable pub select_next_subscriber_order : Text → Statement ℕ
select_next_subscriber_order env t = ok (
  max_order (λ (r : Subscriber). same r.environment env) (λ r. r.display_order) t.subscribers + 1,
  t,
)

-- on conflict (environment, subscriber_id) do update: neither the creation time nor the order is set.
abbrev pub merge_subscriber : Subscriber → Subscriber → Subscriber
merge_subscriber new old = record old {
  name = new.name;
  email = new.email;
  security_status = new.security_status;
  last_interaction_at = new.last_interaction_at;
  tone = new.tone;
  is_featured = new.is_featured;
}

unfoldable pub upsert_subscriber : Subscriber → Statement (Unit {0})
upsert_subscriber row t = in_known_environment row.environment t (
  tt,
  record t {
    subscribers =
        upsert (is_subscriber row.environment row.subscriber_id) (merge_subscriber row) row
          t.subscribers;
  },
)

unfoldable pub clear_segments : Text → Text → Statement (Unit {0})
clear_segments env id t =
    ok (tt, record t { segments = delete_where (is_segment_of env id) t.segments })

unfoldable pub clear_assignments : Text → Text → Statement (Unit {0})
clear_assignments env id t =
    ok (tt, record t { assignments = delete_where (is_assignment_of env id) t.assignments })

-- A plain insert: the primary key (environment, subscriber_id, segment_label) must be new, and the
-- subscriber must be there.
unfoldable pub insert_segment : SubscriberSegment → Statement (Unit {0})
insert_segment row t = elim (find (is_subscriber row.environment row.subscriber_id) t.subscribers) [
  | none ↦ err (violates (codes "platform_subscriber"))
  | some _ ↦
      elim (find
        (λ r.
          is_segment_of row.environment row.subscriber_id r
          && same r.segment_label row.segment_label)
        t.segments) [
          | some _ ↦ err (violates (codes "platform_subscriber_segment_pkey"))
          | none ↦ ok (tt, record t { segments = t.segments ++ (row ∷ []) })
        ]
]

unfoldable pub select_filter_order : Text → Text → Statement (Option ℕ)
select_filter_order env label t =
    ok (Option.map (λ (r : Filter). r.display_order) (find (is_filter env label) t.filters), t)

unfoldable pub select_next_filter_order : Text → Statement ℕ
select_next_filter_order env t =
    ok (max_order (λ (r : Filter). same r.environment env) (λ r. r.display_order) t.filters + 1, t)

-- insert … on conflict do nothing
unfoldable pub insert_filter : Filter → Statement (Unit {0})
insert_filter row t = in_known_environment row.environment t (
  tt,
  record t { filters = upsert (is_filter row.environment row.filter_label) (λ r. r) row t.filters },
)

-- insert … on conflict do nothing; the subscriber and the filter must be there.
unfoldable pub insert_assignment : FilterAssignment → Statement (Unit {0})
insert_assignment row t =
    elim (find (is_subscriber row.environment row.subscriber_id) t.subscribers) [
      | none ↦ err (violates (codes "platform_subscriber"))
      | some _ ↦ elim (find (is_filter row.environment row.filter_label) t.filters) [
        | none ↦ err (violates (codes "platform_filter"))
        | some _ ↦ ok (
          tt,
          record t {
            assignments =
                upsert
                  (λ r.
                    is_assignment_of row.environment row.subscriber_id r
                    && same r.filter_label row.filter_label)
                  (λ r. r) row t.assignments;
          },
        )
      ]
    ]

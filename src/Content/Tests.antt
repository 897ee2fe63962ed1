-- ===== src/Content/Tests.antt =====
-- Runs of the repository on small tables, and its theorems at them.
use flo_mimi.Prelude.{
  ◌==◌, Bool, true, false, if◌then◌else◌, ◌⊎◌, [], ◌∷◌, ◌++◌, none, some, ◌≡◌, refl, Text, codes,
  Error, Result, ok, err, wrap, message, quoted, Text-discrete,
}
use flo_mimi.Prelude.Int.{pos}
use flo_mimi.Text.{trim_space}
use flo_mimi.Slug.{slugify}
use flo_mimi.Value.{Fields, end, item, done, field, string, array}
use flo_mimi.Clock.{Time}
use flo_mimi.Command.{Command, Context}
use flo_mimi.Content.Metadata.{default_campaign_title, resolve_subscriber_id}
use flo_mimi.Content.Table.{find, upsert, update_where, count_where, delete_where, max_order}
use flo_mimi.Content.Schema
use flo_mimi.Content.Schema.{Tables, Campaign, Subscriber}
use flo_mimi.Content.Driver.{Driver, Session}
use flo_mimi.Content.Campaigns.{create_campaign, schedule_campaign, campaign_row}
use flo_mimi.Content.Campaigns.Stored.{
  CampaignStored, create_campaign-CampaignStored, create_campaign-failed, wanted,
}
use flo_mimi.Content.Campaigns.Scheduled.{
  CampaignScheduled, schedule_campaign-CampaignScheduled, schedule_campaign-failed,
}
use flo_mimi.Content.Subscribers.{
  create_subscriber, write_subscriber, assigned_segments, filter_tags, subscriber_row,
}
use flo_mimi.Content.Subscribers.Segments.{segment_rows, create_subscriber-segments}
use flo_mimi.Content.{apply, stored_as}
use flo_mimi.Content.Atomic.{create_subscriber-atomic, apply-is_mutation, is_mutation}
use flo_mimi.Content.Invariant.{IsConsistent, with_campaign}
use flo_mimi.Content.Invariant.Commands.{apply-IsConsistent}

-- A driver whose calls never fail.
abbrev pub calm : Driver
calm = record { fault = λ n. none; now = λ n. n }

abbrev pub local : Text
local = codes "local"

abbrev noon : Time
noon = record { year = 2026; month = 4; day = 9; hour = 12; minute = 0; second = 0 }

abbrev context : Context
context = record { correlation_id = codes "corr-1" }

abbrev pub old_campaign : Campaign
old_campaign = record {
  environment = local;
  campaign_id = codes "spring";
  title = codes "Spring";
  summary = [];
  status = codes "Draft";
  audience_count = pos 10;
  audience_label = [];
  action_label = [];
  tone = [];
  display_order = 4;
}

abbrev pub start : Session
start = record {
  tables = record {
    environments = local ∷ [];
    campaigns = old_campaign ∷ [];
    analytics = [];
    subscribers = [];
    segments = [];
    filters = [];
    assignments = [];
  };
  calls = 0;
}

start-IsConsistent : IsConsistent start.tables
start-IsConsistent = record {
  campaign_keys = (tt, tt);
  campaign_orders = (tt, tt);
  subscriber_keys = tt;
  subscriber_orders = tt;
  filter_keys = tt;
  filter_orders = tt;
  audiences = (refl, tt);
}

abbrev pub command : Text → Fields → Command
command action fields = record {
  session_id = codes "s";
  user_id = codes "u";
  route = codes "campaigns";
  surface = codes "header";
  action = action;
  subject_type = codes "campaign";
  subject_id = codes "autumn";
  campaign_id = codes "autumn";
  recipient_id = [];
  event_kind = codes "auto";
  metadata = some fields;
}

abbrev pub brief : Command
brief = command (codes "create-brief") done

abbrev twice_segmented : Command
twice_segmented = command (codes "add-subscriber") (
    field (codes "assignedSegments")
      (array (item (string (codes "vip")) (item (string (codes " vip ")) end))) done)

applied : Command → Result Bool × Session
unfolding apply stored_as create_campaign create_subscriber resolve_subscriber_id write_subscriber
    subscriber_row assigned_segments filter_tags Schema.select_campaign_order
    Schema.select_next_campaign_order Schema.upsert_campaign Schema.seed_campaign_analytics
    Schema.contains Schema.select_subscriber_order Schema.select_next_subscriber_order
    Schema.upsert_subscriber Schema.clear_segments Schema.clear_assignments Schema.insert_segment
    Schema.select_filter_order Schema.select_next_filter_order Schema.insert_filter
    Schema.insert_assignment find upsert max_order delete_where campaign_row trim_space slugify
    Text-discrete
applied c = apply calm local noon context c start

new_title : default_campaign_title (codes "create-brief") ≡ codes "Create Brief"
unfolding default_campaign_title trim_space
new_title = refl

-- A new campaign goes behind the old one.
brief-applied : ((applied brief).0 ≡ ok true) × ((applied brief).1.calls ≡ 4)
unfolding applied
brief-applied = (refl, refl)

apply-IsConsistent_example : IsConsistent (apply calm local noon context brief start).1.tables
apply-IsConsistent_example =
    apply-IsConsistent calm local noon context brief start start-IsConsistent

-- One label twice breaks the primary key of the segments.
abbrev duplicate : Error
duplicate =
    wrap (codes "insert subscriber segment")
      (Schema.violates (codes "platform_subscriber_segment_pkey"))

duplicate-applied : (applied twice_segmented).0 ≡ err (wrap (codes "store subscriber") duplicate)
unfolding applied
duplicate-applied = refl

create_subscriber-atomic_example :
    (create_subscriber calm local noon twice_segmented start).1.tables ≡ start.tables
unfolding applied
create_subscriber-atomic_example =
    create_subscriber-atomic calm local noon twice_segmented start {e = duplicate}
      {s' = (create_subscriber calm local noon twice_segmented start).1} refl

apply-is_mutation_test :
    (true ≡ is_mutation brief) × (is_mutation brief ≡ false → (applied brief).1 ≡ start)
unfolding applied
apply-is_mutation_test =
    apply-is_mutation calm local noon context brief start {b = true} {s' = (applied brief).1} refl

create_campaign-CampaignStored_example :
    CampaignStored local brief start.tables (create_campaign calm local brief start).1.tables
unfolding applied
create_campaign-CampaignStored_example =
    create_campaign-CampaignStored calm local brief start
      {s' = (create_campaign calm local brief start).1} refl

-- The connection breaks at the fourth call, the one for the statistics.
abbrev pub broken : Error
broken = message (codes "driver: bad connection")

abbrev pub breaking : Driver
breaking = record { fault = λ n. if n == 3 then some broken else none; now = λ n. n }

-- The command is answered with an error, and its campaign is there.
create_campaign-failed_example :
    ((create_campaign breaking local brief start).1.tables ≡ start.tables)
    ⊎ ((create_campaign breaking local brief start).1.tables
        ≡ with_campaign (wanted local brief start.tables) start.tables)
unfolding applied
create_campaign-failed_example =
    create_campaign-failed breaking local brief start
      {e = wrap (codes "seed campaign analytics") broken}
      {s' = (create_campaign breaking local brief start).1} refl

abbrev pub queue : Command
queue = record (command (codes "schedule-test-send") done) { campaign_id = codes "spring" }

schedule_campaign-CampaignScheduled_example :
    CampaignScheduled local
      (codes "spring")
      start.tables
      (schedule_campaign calm local queue start).1.tables
unfolding applied schedule_campaign Schema.schedule_campaign_rows count_where update_where
schedule_campaign-CampaignScheduled_example =
    schedule_campaign-CampaignScheduled calm local queue start
      {s' = (schedule_campaign calm local queue start).1} refl

schedule_campaign-failed_test : (schedule_campaign calm local brief start).1.tables ≡ start.tables
unfolding applied schedule_campaign Schema.schedule_campaign_rows count_where update_where
schedule_campaign-failed_test =
    schedule_campaign-failed calm local brief start
      {e = quoted (codes "campaign ") (codes "autumn") (codes " was not found")}
      {s' = (schedule_campaign calm local brief start).1} refl

abbrev segmented : Command
segmented = command (codes "add-subscriber") (
    field (codes "assignedSegments")
      (array (item (string (codes "vip")) (item (string (codes " press ")) end))) done)

create_subscriber-segments_example :
    ((create_subscriber calm local noon segmented start).1.tables.segments
      ≡ delete_where (Schema.is_segment_of local (resolve_subscriber_id segmented noon)) []
        ++ segment_rows local
            (resolve_subscriber_id segmented noon)
            0
            (assigned_segments segmented))
    × ((create_subscriber calm local noon segmented start).1.tables.campaigns ≡ old_campaign ∷ [])
    × ((create_subscriber calm local noon segmented start).1.tables.analytics ≡ [])
unfolding applied
create_subscriber-segments_example =
    create_subscriber-segments calm local noon segmented start
      {s' = (create_subscriber calm local noon segmented start).1} refl

segmented_labels : assigned_segments segmented ≡ codes "vip" ∷ codes "press" ∷ []
unfolding applied
segmented_labels = refl

-- ===== src/Platform/Tests.antt =====
-- A platform with empty tables, and the theorems on its requests at it.
use flo_mimi.Telemetry.{normalize_route}
use flo_mimi.Prelude.{
  is_utf8, ℕ, suc, Bool, true, false, [], ◌∷◌, none, some, ◌≡◌, ◌≢◌, refl, Text, codes,
  Text-discrete, Error, Result, ok, err, message, wrap,
}
use flo_mimi.Text.{trim_space, trim_right}
use flo_mimi.Slug.{slugify}
use flo_mimi.Clock.{Time, bytes, failed, compact, new_id, decimal, write_digits, rfc3339}
use flo_mimi.Value.{done}
use flo_mimi.Command.{Command}
use flo_mimi.Interactions
use flo_mimi.Interactions.{
  Ambient, normalize, with_defaults, with_campaign_id, with_subject, requires_campaign_identity,
  is_campaign_placeholder, derive_campaign_id, respond, record_interaction,
}
use flo_mimi.Gateway
use flo_mimi.Content.{apply, stored_as}
use flo_mimi.Content.Table.{find, upsert, max_order}
use flo_mimi.Content.Schema
use flo_mimi.Content.Schema.{Tables}
use flo_mimi.Content.Driver.{Session}
use flo_mimi.Content.Campaigns.{create_campaign, campaign_row}
use flo_mimi.Content.Campaigns.Stored.{CampaignStored}
use flo_mimi.Content.Invariant.{IsConsistent}
use flo_mimi.Bootstrap.{Analytics}
use flo_mimi.Bootstrap.Load.{Decoders}
use flo_mimi.Trino.{Transport, load_analytics, first_page, execute}
use flo_mimi.Server.{Request, Answer, limit, body_limit, handle_interactions, method_not_allowed}
use flo_mimi.Telemetry.Interleaving.{idle}
use flo_mimi.Platform.{
  Environment, World, Outside, trino_repository, application_handler, serve_root, environment_of,
}
use flo_mimi.Platform.Observed.{observed, observing, serve_root-observed}
use flo_mimi.Platform.Runs.{run, run-IsConsistent, run-reading}
use flo_mimi.Platform.Briefs.{accepted-CampaignStored, handle_interactions-unannounced}

-- No variable is set.
abbrev pub bare : Environment
bare name = []

abbrev pub noon : Time
noon = record { year = 2026; month = 4; day = 9; hour = 12; minute = 0; second = 0 }

abbrev pub ambient : Ambient
ambient = record {
  session_entropy = bytes (1 ∷ 2 ∷ []);
  derived_at = noon;
  trace_entropy = failed 7;
  occurred_at = noon;
}

-- Trino is down.
abbrev pub down : Transport ℕ
down = record {
  build = λ url. ok tt;
  send = λ request n. (err (message (codes "connection refused")), suc n);
  unmarshal = λ body. err (message (codes "unexpected end of JSON input"));
}

abbrev pub refused : Error
refused = wrap (codes "execute trino request") (message (codes "connection refused"))

unfoldable pub down_ends :
    (n : ℕ)
    → (r : Result Analytics × ℕ) × (load_analytics down (trino_repository bare) 1 n ≡ some r)
unfolding load_analytics first_page execute
down_ends n = ((err refused, suc n), refl)

abbrev pub nothing_decoded : Decoders
nothing_decoded = record {
  unmarshal_brand = λ raw. err refused;
  unmarshal_session = λ raw. err refused;
  unmarshal_dashboard = λ raw. err refused;
  unmarshal_campaigns = λ raw. err refused;
  unmarshal_subscribers = λ raw. err refused;
  unmarshal_analytics = λ raw. err refused;
}

-- A body is a surface, and every command a brief.
abbrev pub brief_on : Text → Command
brief_on surface = record {
  session_id = [];
  user_id = [];
  route = [];
  surface = surface;
  action = codes "create-brief";
  subject_type = codes "campaign";
  subject_id = codes "new-brief";
  campaign_id = codes "autumn";
  recipient_id = [];
  event_kind = codes "both";
  metadata = some done;
}

-- The gateway answers with a status.
abbrev pub outside : ℕ → Outside ℕ bare
outside status = record {
  driver = record { fault = λ n. none; now = λ n. n };
  select_view = λ env t. err refused;
  decoders = nothing_decoded;
  build = λ url. ok tt;
  send = λ request n. (Gateway.answered status (codes "status") [], suc n);
  transport = down;
  pages = 1;
  analytics_ends = down_ends;
  index = codes "<html>";
  decode_command = λ limited. some (brief_on limited.bytes);
  is_asset = λ path. false;
  file_server = λ request. method_not_allowed;
  metrics = λ m. method_not_allowed;
  redirect = λ request. none;
  clock = λ n. noon;
  ambient = λ n. ambient;
  entropy = λ n. failed n;
}

abbrev pub start : World ℕ
start = record {
  db = record {
    tables = record {
      environments = codes "local" ∷ [];
      campaigns = [];
      analytics = [];
      subscribers = [];
      segments = [];
      filters = [];
      assignments = [];
    };
    calls = 0;
  };
  net = 0;
  monitor = idle;
  spans = [];
}

abbrev pub request : Text → Text → Request
request method path = record {
  method = method;
  path = path;
  matched = path;
  context = record { correlation_id = codes "corr-1" };
  body = codes "row";
}

abbrev pub post : Request
post = request (codes "POST") (codes "/api/interactions")

start-IsConsistent : IsConsistent start.db.tables
start-IsConsistent = record {
  campaign_keys = tt;
  campaign_orders = tt;
  subscriber_keys = tt;
  subscriber_orders = tt;
  filter_keys = tt;
  filter_orders = tt;
  audiences = tt;
}

unfoldable pub handled : ℕ → Answer × World ℕ
unfolding handle_interactions application_handler limit body_limit record_interaction normalize
    with_defaults with_campaign_id with_subject requires_campaign_identity is_campaign_placeholder
    respond Interactions.first_non_empty new_id decimal write_digits rfc3339 compact trim_space
    trim_right slugify apply stored_as create_campaign campaign_row Schema.select_campaign_order
    Schema.select_next_campaign_order Schema.upsert_campaign Schema.seed_campaign_analytics
    Schema.contains find upsert max_order Gateway.publish_interaction Gateway.publish_analytics
    Gateway.publish_email Gateway.post_json Gateway.analytics_payload Gateway.email_payload
    Gateway.should_publish_analytics Gateway.should_publish_email Text-discrete
handled status = handle_interactions (application_handler bare (outside status)) post start

accepted_status : (handled 202).0.status ≡ 202
unfolding handled
accepted_status = refl

-- Both events are posted, and counted by their metrics.
announced : ((handled 202).1.net ≡ 2) × ((handled 202).1.db.calls ≡ 4)
unfolding handled
announced = (refl, refl)

abbrev pub completed : Command
completed = normalize ambient (brief_on (codes "row"))

accepted-CampaignStored_example :
    CampaignStored (environment_of bare) completed start.db.tables (handled 202).1.db.tables
unfolding handled
accepted-CampaignStored_example =
    accepted-CampaignStored bare (outside 202) post start {a = (handled 202).0}
      {w' = (handled 202).1} (brief_on (codes "row")) refl refl refl refl

-- The gateway answers with 503: the browser reads 502, and the campaign is there.
applied : Result Bool × Session
unfolding handled
applied =
    apply (outside 503).driver (environment_of bare) noon
      (record { correlation_id = codes "corr-1" }) completed start.db

handle_interactions-unannounced_example :
    ((handle_interactions (application_handler bare (outside 503)) post start).0.status ≡ 502)
    × ((handle_interactions (application_handler bare (outside 503)) post start).1.db.tables
        ≡ applied.1.tables)
unfolding handled applied
handle_interactions-unannounced_example =
    handle_interactions-unannounced bare (outside 503) post start _ (brief_on (codes "row"))
      {stored = true} {s' = applied.1} {e = _} refl refl refl refl refl

still_there : applied.1.tables.campaigns ≢ []
unfolding applied
still_there e = cc

run-IsConsistent_example :
    IsConsistent (run bare (outside 503) (([], post) ∷ (codes "c", post) ∷ []) start).db.tables
run-IsConsistent_example =
    run-IsConsistent bare (outside 503) (([], post) ∷ (codes "c", post) ∷ []) start
      start-IsConsistent

run-reading_example :
    (run bare
      (outside 202)
      (([], request (codes "GET") (codes "/api/bootstrap"))
        ∷ ([], request (codes "POST") (codes "/"))
        ∷ [])
      start).db.tables
    ≡ start.db.tables
unfolding Text-discrete
run-reading_example =
    run-reading bare (outside 202)
      (([], request (codes "GET") (codes "/api/bootstrap"))
        ∷ ([], request (codes "POST") (codes "/"))
        ∷ [])
      start ((λ e. cc), ((λ e. refl), tt))

serve_root-observed_example :
    observed (serve_root bare (outside 202) [] post start).1
    ≡ observing post (serve_root bare (outside 202) [] post start).0.1.status (observed start)
unfolding Text-discrete is_utf8 normalize_route trim_space
serve_root-observed_example = serve_root-observed bare (outside 202) [] post start refl refl refl

-- ===== src/Server/Tests.antt =====
-- Runs of the handlers over stubs, and their theorems at them.
use flo_mimi.Prelude.{
  ℕ, suc, false, [], ◌∷◌, none, some, ◌≡◌, ◌≢◌, All, List, refl, Text, codes, Text-discrete, ok,
  err, message,
}
use flo_mimi.Text.{trim_space}
use flo_mimi.Slug.{slugify}
use flo_mimi.Clock.{bytes, failed, compact, new_id, decimal, write_digits, rfc3339}
use flo_mimi.Command.{Command}
use flo_mimi.Interactions.{
  Ambient, with_defaults, with_campaign_id, with_subject, requires_campaign_identity,
  first_non_empty, normalize, respond, record_interaction, is_campaign_placeholder,
  derive_campaign_id,
}
use flo_mimi.Bootstrap.{AppBootstrap, Analytics}
use flo_mimi.Bootstrap.Service.{no_analytics, IsShown}
use flo_mimi.Path.{join}
use flo_mimi.Path.Valid.{IsElement}
use flo_mimi.Server.Assets.{asset_path-IsElement}
use flo_mimi.Server.{
  asset_path, Request, Handler, Answer, view, write_json, method_not_allowed, limit, body_limit,
  handle_interactions, handle_bootstrap, serve,
}
use flo_mimi.Server.Answers.{
  IsRecorded, handle_interactions-IsRecorded, handle_interactions-refused, handle_bootstrap-view,
  serve-not_allowed,
}

abbrev ambient : Ambient
ambient = record {
  session_entropy = bytes (1 ∷ 2 ∷ []);
  derived_at = record { year = 2026; month = 4; day = 9; hour = 10; minute = 11; second = 12 };
  trace_entropy = failed 7;
  occurred_at = record { year = 2026; month = 4; day = 9; hour = 10; minute = 11; second = 12 };
}

abbrev command : Text → Command
command surface = record {
  session_id = codes "s";
  user_id = codes "u";
  route = codes "campaigns";
  surface = surface;
  action = codes "open";
  subject_type = [];
  subject_id = [];
  campaign_id = [];
  recipient_id = [];
  event_kind = codes "auto";
  metadata = none;
}

abbrev empty_view : AppBootstrap
empty_view = record {
  brand = record {
    name = codes "mimi";
    tagline = [];
    hero_title = [];
    hero_accent = [];
    hero_note = [];
    last_sync = [];
    search_placeholder = [];
  };
  session = record { label = []; node = []; status = [] };
  dashboard = record {
    metrics = [];
    performance = record { title = []; modes = []; active_mode = []; bars = [] };
    activities = [];
    segments = [];
    security_card = record { title = []; status = []; description = [] };
    billing_card = record { eyebrow = []; title = []; date = []; action = [] };
  };
  campaigns = record { headline = []; description = []; stats = []; items = [] };
  subscribers = record {
    headline = [];
    description = [];
    filters = [];
    network_size = [];
    items = [];
  };
  analytics = no_analytics;
}

-- The state counts the calls of the ports; a body is a surface.
abbrev handler : Handler ℕ
handler = record {
  bootstrap_service = record {
    repository = λ n. (ok empty_view, suc n);
    analytics_repo = some (λ n. (err (message (codes "trino status 503")), suc n));
  };
  store = none;
  sink = record {
    publish_interaction = λ ctx c n. (ok (record { published = codes "analytics" ∷ [] }), suc n);
  };
  index = codes "<html>";
  decode_command = λ limited. some (command limited.bytes);
  is_asset = λ path. false;
  file_server = λ request n. (method_not_allowed, n);
  ambient = λ n. ambient;
}

abbrev request : Text → Text → Text → Request
request method path body = record {
  method = method;
  path = path;
  matched = path;
  context = record { correlation_id = codes "corr-1" };
  body = body;
}

abbrev post : Text → Request
post body = request (codes "POST") (codes "/api/interactions") body

handled : Request → Answer × ℕ
unfolding handle_interactions limit body_limit record_interaction respond first_non_empty normalize
    with_defaults with_campaign_id with_subject requires_campaign_identity is_campaign_placeholder
    derive_campaign_id trim_space slugify compact new_id decimal write_digits rfc3339 Text-discrete
handled r = handle_interactions handler r 0

handle_interactions-IsRecorded_example :
    IsRecorded handler (post (codes "row")) 0 (handled (post (codes "row"))).0 1
unfolding handled
handle_interactions-IsRecorded_example =
    handle_interactions-IsRecorded handler (post (codes "row")) 0
      {a = (handled (post (codes "row"))).0} {w' = 1} refl refl

handle_interactions-refused_example :
    ((handle_interactions handler (post (codes " ")) 0).0.status ≡ 502)
    × ((handle_interactions handler (post (codes " ")) 0).1 ≡ 0)
unfolding handled
handle_interactions-refused_example =
    handle_interactions-refused handler (post (codes " ")) 0 {command = command (codes " ")} refl
      refl refl

abbrev get_view : Request
get_view = request (codes "GET") (codes "/api/bootstrap") []

handle_bootstrap-view_example :
    (a : Analytics) × (w : ℕ) × (handle_bootstrap handler get_view 0
      ≡ (write_json 200 (view (record empty_view { analytics = a })), w))
    × IsShown handler.bootstrap_service empty_view 1 a w
unfolding Text-discrete
handle_bootstrap-view_example = handle_bootstrap-view handler get_view 0 refl refl

serve-not_allowed_test :
    serve handler (request (codes "DELETE") (codes "/api/interactions") []) 0
    ≡ (method_not_allowed, 0)
unfolding Text-discrete
serve-not_allowed_test =
    serve-not_allowed handler (request (codes "DELETE") (codes "/api/interactions") []) 0 refl refl
      (λ _. refl)

-- No path climbs above the root of the assets.
climbing : asset_path (codes "/app/../../etc//./passwd") ≡ codes "etc/passwd"
unfolding asset_path Text-discrete
climbing = refl

root_path : asset_path (codes "/") ≡ codes "index.html"
unfolding asset_path Text-discrete
root_path = refl

asset_path-IsElement_example :
    (names : List Text) × (names ≢ [])
    × All IsElement names
    × (asset_path (codes "/app/../../etc//./passwd") ≡ join names)
asset_path-IsElement_example = asset_path-IsElement (codes "app/../../etc//./passwd")

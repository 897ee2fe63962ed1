-- ===== src/Platform/Shown/Tests.antt =====
-- A brief that is posted, and the view that is asked for next.
use flo_mimi.Prelude.{ℕ, [], ◌≡◌, refl, List, Text-discrete, codes, ok, map, ok-same}
use mathlib.Core.Path.{subst}
use mathlib.Core.List.{Mem}
use flo_mimi.Content.Schema.{Tables}
use flo_mimi.Content.Driver.{exec}
use flo_mimi.Content.View.{Formats, IsShown, listed, campaign_record}
use flo_mimi.Content.View.Campaigns.{listed-IsListed}
use flo_mimi.Content.View.Briefs.{ShowsBrief}
use flo_mimi.Bootstrap.{AppBootstrap, Campaigns, CampaignRecord}
use flo_mimi.Bootstrap.Load.{Decoders, load, unmarshal_section}
use flo_mimi.Bootstrap.Service.{load_view}
use flo_mimi.Server.{Request, view, handle_bootstrap}
use flo_mimi.Platform.{
  Outside, environment_of, env_or_default, view_source, bootstrap_service, application_handler,
}
use flo_mimi.Trino.{load_analytics, first_page, execute}
use flo_mimi.Platform.Tests.{
  down_ends, bare, outside, start, request, post, brief_on, completed, handled,
}
use flo_mimi.Platform.Shown.{accepted-ShowsBrief}

abbrev plain : Formats
plain = record { integer = λ n. codes "6,400"; percent_of = λ n m. codes "1.0%" }

-- The tables after the brief.
abbrev after : Tables
after = (handled 202).1.db.tables

abbrev shown : Campaigns
shown = record {
  headline = codes "Campaigns";
  description = [];
  stats = [];
  items = map (campaign_record plain (codes "local") after) (listed (codes "local") after);
}

abbrev decoders : Decoders
decoders = record {
  unmarshal_brand = λ raw. ok (record {
    name = [];
    tagline = [];
    hero_title = [];
    hero_accent = [];
    hero_note = [];
    last_sync = [];
    search_placeholder = [];
  });
  unmarshal_session = λ raw. ok (record { label = []; node = []; status = [] });
  unmarshal_dashboard = λ raw. ok (record {
    metrics = [];
    performance = record { title = []; modes = []; active_mode = []; bars = [] };
    activities = [];
    segments = [];
    security_card = record { title = []; status = []; description = [] };
    billing_card = record { eyebrow = []; title = []; date = []; action = [] };
  });
  unmarshal_campaigns = λ raw. ok shown;
  unmarshal_subscribers = λ raw.
      ok (record { headline = []; description = []; filters = []; network_size = []; items = [] });
  unmarshal_analytics =
      λ raw. ok (record { headline = []; description = []; pipelines = []; signals = [] });
}

abbrev object : List ℕ
object = codes "{}"

abbrev showing : Outside ℕ bare
showing = record (outside 202) {
  select_view = λ env t. ok (record {
    raw_brand = object;
    raw_session = object;
    raw_dashboard = object;
    raw_campaigns = object;
    raw_subscribers = object;
    raw_analytics = object;
  });
  decoders = decoders;
}

abbrev get : Request
get = request (codes "GET") (codes "/api/bootstrap")

given : (handle_bootstrap (application_handler bare showing) get (handled 202).1).0.status ≡ 200
unfolding handle_bootstrap application_handler bootstrap_service load_view load view_source exec
    unmarshal_section Text-discrete handled down_ends load_analytics first_page execute
given = refl

accepted-ShowsBrief_example :
    (model : AppBootstrap) × ((handle_bootstrap
        (application_handler bare showing)
        get
        (handled 202).1).0.body
      ≡ view model)
    × (item : CampaignRecord) × Mem item model.campaigns.items
    × ShowsBrief plain (environment_of bare) completed item
unfolding handled environment_of env_or_default
accepted-ShowsBrief_example =
    accepted-ShowsBrief bare showing plain post get start {a = (handled 202).0}
      {w' = (handled 202).1} (brief_on (codes "row")) refl refl refl refl
      (λ row campaigns selected decoded.
        subst (λ (c : Campaigns). IsShown plain (environment_of bare) after c.items)
          (ok-same decoded)
          (listed (codes "local") after, listed-IsListed (codes "local") after, refl))
      given

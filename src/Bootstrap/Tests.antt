-- ===== src/Bootstrap/Tests.antt =====
-- Runs of the bootstrap service, and its theorems at them.
use flo_mimi.Prelude.{ℕ, suc, [], some, ◌≡◌, refl, Text, codes, ok, err, message}
use flo_mimi.Bootstrap.{AppBootstrap, Brand, Dashboard, Analytics}
use flo_mimi.Bootstrap.Load.{Row, Source, load, IsDecoded, load-IsDecoded}
use flo_mimi.Bootstrap.Service.{Service, no_analytics, load_view, IsShown, load_view-IsShown}

abbrev brand_named : Text → Brand
brand_named name = record {
  name = name;
  tagline = [];
  hero_title = [];
  hero_accent = [];
  hero_note = [];
  last_sync = [];
  search_placeholder = [];
}

abbrev empty_dashboard : Dashboard
empty_dashboard = record {
  metrics = [];
  performance = record { title = []; modes = []; active_mode = []; bars = [] };
  activities = [];
  segments = [];
  security_card = record { title = []; status = []; description = [] };
  billing_card = record { eyebrow = []; title = []; date = []; action = [] };
}

-- A decoder that reads the brand's name, and answers with nothing else.
abbrev source : Source ℕ
source = record {
  select_bootstrap = λ env n. (
    ok (record {
      raw_brand = codes "mimi";
      raw_session = codes "{}";
      raw_dashboard = codes "{}";
      raw_campaigns = codes "{}";
      raw_subscribers = codes "{}";
      raw_analytics = codes "{}";
    }),
    suc n,
  );
  decoders = record {
    unmarshal_brand = λ raw. ok (brand_named raw);
    unmarshal_session = λ raw. ok (record { label = []; node = []; status = [] });
    unmarshal_dashboard = λ raw. ok empty_dashboard;
    unmarshal_campaigns =
        λ raw. ok (record { headline = []; description = []; stats = []; items = [] });
    unmarshal_subscribers = λ raw.
        ok
          (record { headline = []; description = []; filters = []; network_size = []; items = [] });
    unmarshal_analytics = λ raw. ok no_analytics;
  };
}

abbrev view : AppBootstrap
view = record {
  brand = brand_named (codes "mimi");
  session = record { label = []; node = []; status = [] };
  dashboard = empty_dashboard;
  campaigns = record { headline = []; description = []; stats = []; items = [] };
  subscribers = record {
    headline = [];
    description = [];
    filters = [];
    network_size = [];
    items = [];
  };
  analytics = no_analytics;
}

loaded : load source (codes "local") 0 ≡ (ok view, 1)
unfolding load
loaded = refl

load-IsDecoded_example :
    (row : Row) × (source.select_bootstrap (codes "local") 0 ≡ (ok row, 1))
    × IsDecoded source (codes "local") row view
load-IsDecoded_example = load-IsDecoded source (codes "local") 0 loaded

-- The serving store is down.
abbrev service : Service ℕ
service = record {
  repository = load source (codes "local");
  analytics_repo = some (λ n. (err (message (codes "trino status 503")), suc n));
}

load_view-IsShown_example :
    (a : Analytics) × (w : ℕ) × (load_view service 0 ≡ (ok (record view { analytics = a }), w))
    × IsShown service view 1 a w
load_view-IsShown_example = load_view-IsShown service 0 loaded

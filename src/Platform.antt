-- ===== src/Platform.antt =====
-- platform/cmd/server/main.go: the parts put together, over one state of the world.
pub mod Readings
pub mod Serving
pub mod Effects
pub mod Runs
pub mod Briefs
pub mod Life
pub mod Shown
pub mod Observed
pub mod Tests
use flo_mimi.Prelude.{
  ℕ, Bool, [], ◌∷◌, ◌++◌, List, Option, none, some, ◌≡◌, refl, ap, Text, codes, same, if◌then◌else◌,
  Result, ok, err, Action,
}
use flo_mimi.Clock.{Time, Entropy}
use flo_mimi.Command.{Command, MutationStore, EventSink}
use flo_mimi.Interactions.{Ambient}
use flo_mimi.Gateway
use flo_mimi.Gateway.{Client, new_http_event_gateway}
use flo_mimi.Content.{app_db_repository}
use flo_mimi.Content.Schema.{Tables}
use flo_mimi.Content.Driver.{Driver, Session, exec}
use flo_mimi.Bootstrap.{Analytics}
use flo_mimi.Bootstrap.Load.{Row, Decoders, Source, load}
use flo_mimi.Bootstrap.Service.{Service}
use flo_mimi.Trino.{Transport, TrinoRepository, new_trino_repository, load_analytics}
use flo_mimi.Server.{Request, Handler, Answer, Limited, serve}
use flo_mimi.Telemetry.{Monitor, observe_outbound_http, wrap_http}
use flo_mimi.Telemetry.Tracing.{Span, trace_http}

-- os.Getenv, which gives an empty text for a variable that is not set.
abbrev pub Environment : Type 0
Environment = Text → Text

unfoldable pub env_or_default : Environment → Text → Text → Text
env_or_default getenv name fallback =
    let value = getenv name in if same value [] then fallback else value

unfoldable pub environment_of : Environment → Text
unfolding env_or_default
environment_of getenv = env_or_default getenv (codes "PLATFORM_ENVIRONMENT") (codes "local")

unfoldable pub trino_repository : Environment → TrinoRepository
unfolding env_or_default new_trino_repository
trino_repository getenv =
    new_trino_repository (env_or_default getenv (codes "TRINO_HOST") (codes "trino"))
      (env_or_default getenv (codes "TRINO_PORT") (codes "8080"))
      (env_or_default getenv (codes "TRINO_USER") (codes "platform"))

-- The tables behind the connection, what the rest of the world is, the metrics and the spans.
pub record World (N : Type 0) : Type 0 where
  pub db : Session
  pub net : N
  pub monitor : Monitor
  pub spans : List Span

-- What the program calls, the query of the analytics ending within a number of pages. `select_view`
-- is the view analytics.platform_bootstrap on the tables, and `redirect` the answer that a ServeMux
-- gives itself: to a path that is not clean, and to "*".
pub record Outside (N : Type 0) (getenv : Environment) : Type 0 where
  pub driver : Driver
  pub select_view : Text → Tables → Result Row
  pub decoders : Decoders
  pub build : Text → Result (Unit {0})
  pub send : Gateway.Request → N → Gateway.Reply × N
  pub transport : Transport N
  pub pages : ℕ
  pub analytics_ends :
      (n : N)
      → (r : Result Analytics × N) × (load_analytics transport (trino_repository getenv) pages n
          ≡ some r)
  pub index : List ℕ
  pub decode_command : Limited → Option Command
  pub is_asset : Text → Bool
  pub file_server : Request → Answer
  pub metrics : Monitor → Answer
  pub redirect : Request → Option Answer
  pub clock : N → Time
  pub ambient : N → Ambient
  pub entropy : N → Entropy

module _ {N : Type 0} where
  abbrev pub on_db : {A : Type 0} → Action Session A → Action (World N) A
  on_db m w = let r = m w.db in (r.0, record w { db = r.1 })

  abbrev pub on_net : {A : Type 0} → (N → A × N) → World N → A × World N
  on_net m w = let r = m w.net in (r.0, record w { net = r.1 })

  abbrev pub on_monitor : (Monitor → Monitor) → World N → World N
  on_monitor f w = record w { monitor = f w.monitor }

  abbrev pub on_spans : (List Span → List Span) → World N → World N
  on_spans f w = record w { spans = f w.spans }

module _ {N : Type 0} (getenv : Environment) (out : Outside N getenv) where
  abbrev pub viewed : Result Row → Tables → Result (Row × Tables)
  viewed (ok row) t = ok (row, t)
  viewed (err e) t = err e

  -- The repository reads its view by one call of the driver.
  unfoldable pub view_source : Source Session
  unfolding exec
  view_source = record {
    select_bootstrap = λ env. exec out.driver (λ _ t. viewed (out.select_view env t) t);
    decoders = out.decoders;
  }

  unfoldable pub mutation_store : MutationStore (World N)
  unfolding app_db_repository environment_of
  mutation_store = record {
    apply = λ ctx c w.
        on_db ((app_db_repository out.driver (environment_of getenv) (out.clock w.net)).apply ctx c)
          w;
  }

  unfoldable pub gateway_client : Client (World N)
  unfolding observe_outbound_http
  gateway_client = record {
    build = out.build;
    send = λ request. on_net (out.send request);
    observe = λ route status. on_monitor (
        observe_outbound_http (codes "platform") (codes "event-gateway") (codes "POST") route
          status);
  }

  unfoldable pub event_gateway : EventSink (World N)
  unfolding gateway_client new_http_event_gateway env_or_default
  event_gateway =
      new_http_event_gateway gateway_client
        (env_or_default getenv (codes "EVENT_GATEWAY_BASE_URL") (codes "http://localhost:8000"))

  unfoldable pub bootstrap_service : Service (World N)
  unfolding view_source load environment_of
  bootstrap_service = record {
    repository = on_db (load view_source (environment_of getenv));
    analytics_repo = some (on_net (λ n. (out.analytics_ends n).0));
  }

  unfoldable pub application_handler : Handler (World N)
  unfolding bootstrap_service mutation_store event_gateway
  application_handler = record {
    bootstrap_service = bootstrap_service;
    store = some mutation_store;
    sink = event_gateway;
    index = out.index;
    decode_command = out.decode_command;
    is_asset = out.is_asset;
    file_server = λ request w. (out.file_server request, w);
    ambient = λ w. out.ambient w.net;
  }

  -- What `rootHandler` holds: the metrics, or the application behind the middleware, with the header
  -- X-Correlation-ID of the request and of the response.
  unfoldable pub serve_matched : Text → Request → World N → (Text × Answer) × World N
  unfolding application_handler serve wrap_http trace_http
  serve_matched header request w =
      if same request.matched (codes "/metrics")
      then (([], out.metrics w.monitor), w)
      else trace_http on_spans (λ (r : Text × Answer). r.1.status ∷ [])
          (λ v.
            wrap_http on_monitor (λ a. a.status ∷ [])
              (λ correlation_id.
                serve application_handler
                  (record request { context = record { correlation_id = correlation_id } }))
              request.method request.path header (out.entropy v.net) v)
          request.method request.path w

  -- `rootHandler`, which answers some requests itself.
  abbrev redirected : Option Answer → Text → Request → World N → (Text × Answer) × World N
  redirected (some answer) header request w = (([], answer), w)
  redirected none header request w = serve_matched header request w

  unfoldable pub serve_root : Text → Request → World N → (Text × Answer) × World N
  unfolding serve_matched
  serve_root header request w = redirected (out.redirect request) header request w

  pub serve_root-passed :
      (header : Text) (request : Request) (w : World N)
      → out.redirect request ≡ none
      → serve_root header request w ≡ serve_matched header request w
  unfolding serve_root
  serve_root-passed header request w passed =
      ap (λ answer. redirected answer header request w) passed

  -- Of the world a redirect changes nothing.
  pub serve_root-both :
      (P : (Text × Answer) × World N → Type 0) (header : Text) (request : Request) (w : World N)
      → ((answer : Answer) → out.redirect request ≡ some answer → P (([], answer), w))
      → (out.redirect request ≡ none → P (serve_matched header request w))
      → P (serve_root header request w)
  unfolding serve_root
  serve_root-both P header request w at_once later = by_answer (out.redirect request) refl
    where
      by_answer : (o : Option Answer) → out.redirect request ≡ o → P (redirected o header request w)
      by_answer (some answer) e = at_once answer e
      by_answer none e = later e

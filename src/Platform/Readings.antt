-- ===== src/Platform/Readings.antt =====
-- What the parts of the platform keep of its world, other than the recording of a command.
use flo_mimi.Prelude.{ℕ, ◌&&◌, not, Text, codes, same, Result, ok, err, if-both}
use flo_mimi.Prelude.Effects.{Keeps}
use flo_mimi.Command.{Command, Context}
use flo_mimi.Gateway
use flo_mimi.Gateway.Effects.{publish_interaction-Keeps}
use flo_mimi.Bootstrap.Effects.{load_view-Keeps, load_analytics_view-Keeps}
use flo_mimi.Bootstrap.Service.{load_view, load_analytics_view}
use flo_mimi.Server
use flo_mimi.Server.{
  Request, Answer, handle_health, handle_bootstrap, handle_analytics, handle_spa, asset_path,
}
use flo_mimi.Telemetry.{observe_outbound_http}
use flo_mimi.Platform.{
  on_monitor, Environment, World, Outside, gateway_client, event_gateway, bootstrap_service,
  application_handler,
}

module _ {N : Type 0} (getenv : Environment) (out : Outside N getenv) (P : World N → Type 0)
    (net_stays : (w : World N) (n : N) → P w → P (record w { net = n }))
    (outbound_stays : (target method route status : Text) (w : World N)
      → P w
      → P (on_monitor (observe_outbound_http (codes "platform") target method route status) w))
    (repository-Keeps : Keeps P (bootstrap_service getenv out).repository) where
  pub sink-Keeps :
      (ctx : Context) (c : Command) → Keeps P ((event_gateway getenv out).publish_interaction ctx c)
  unfolding event_gateway gateway_client Gateway.new_http_event_gateway
  sink-Keeps ctx c =
      publish_interaction-Keeps (gateway_client getenv out) P
        (λ request w h. net_stays w (out.send request w.net).1 h)
        (λ route status w h. outbound_stays (codes "event-gateway") (codes "POST") route status w h)
        _ ctx c

  -- An answer is written in the state that the call has left.
  abbrev After : Answer × World N → Type 0
  After r = P r.1

  pub answered :
      {A : Type 0} (success failed : ℕ) (body : A → Server.Body) (r : Result A × World N)
      → P r.1
      → P (Server.answer success failed body r).1
  answered success failed body (ok a, w) h = h
  answered success failed body (err e, w) h = h

  pub bootstrap-keeps :
      (request : Request) (w : World N)
      → P w
      → P (handle_bootstrap (application_handler getenv out) request w).1
  unfolding handle_bootstrap application_handler bootstrap_service
  bootstrap-keeps request w h =
      if-both After (same request.method (codes "GET"))
        (λ _. answered _ _ _ (load_view (bootstrap_service getenv out) w) (
          (load_view-Keeps P (bootstrap_service getenv out) repository-Keeps
              (record { run = λ v k. net_stays v _ k })).run
            w h))
        (λ _. h)

  pub analytics-keeps :
      (request : Request) (w : World N)
      → P w
      → P (handle_analytics (application_handler getenv out) request w).1
  unfolding handle_analytics application_handler bootstrap_service
  analytics-keeps request w h =
      if-both After (same request.method (codes "GET"))
        (λ _. answered _ _ _ (load_analytics_view (bootstrap_service getenv out) w) (
          (load_analytics_view-Keeps P (bootstrap_service getenv out)
              (record { run = λ v k. net_stays v _ k })).run
            w h))
        (λ _. h)

  pub health-keeps : (request : Request) (w : World N) → P w → P (handle_health request w).1
  unfolding handle_health
  health-keeps request w h = if-both After (same request.method (codes "GET")) (λ _. h) (λ _. h)

  pub spa-keeps :
      (request : Request) (w : World N)
      → P w
      → P (handle_spa (application_handler getenv out) request w).1
  unfolding handle_spa application_handler
  spa-keeps request w h =
      if-both After
        (not (same request.method (codes "GET")) && not (same request.method (codes "HEAD")))
        (λ _. h) (λ _. if-both After (out.is_asset (asset_path request.path)) (λ _. h) (λ _. h))

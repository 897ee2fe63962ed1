-- ===== src/Telemetry/Metrics.antt =====
-- platform/internal/telemetry/telemetry.go: the metrics, and the calls of the Prometheus library that
-- the middleware makes.
pub mod Agreement
pub mod Steps
pub mod Labels
pub mod Run
pub mod Tests
use flo_mimi.Prelude.{
  ℕ, ◌+◌, ◌-◌, Bool, true, false, ◌&&◌, ◌||◌, [], ◌∷◌, ◌≡◌, List, Option, none, some, Text, codes,
  same, map, length, if◌then◌else◌,
}
use flo_mimi.Text.{trim_space}
use flo_mimi.Clock.{decimal}
use flo_mimi.Telemetry.{
  Monitor, enter, leave, normalize_route, first_non_empty, observe_outbound_http,
}
use flo_mimi.Telemetry.Interleaving.{idle}
use mathlib.Core.Option.{bind}

-- A CounterVec, HistogramVec or GaugeVec with its name and its labels, less the help text and the buckets.
pub record MetricVec : Type 0 where
  pub name : Text
  pub labels : List Text

abbrev pub http_requests_total : MetricVec
http_requests_total = record {
  name = codes "app_http_requests_total";
  labels = codes "service" ∷ codes "method" ∷ codes "route" ∷ codes "status" ∷ [];
}

abbrev pub http_request_duration : MetricVec
http_request_duration = record {
  name = codes "app_http_request_duration_seconds";
  labels = codes "service" ∷ codes "method" ∷ codes "route" ∷ [];
}

abbrev pub http_inflight_requests : MetricVec
http_inflight_requests = record {
  name = codes "app_http_inflight_requests";
  labels = codes "service" ∷ [];
}

abbrev pub outbound_http_requests_total : MetricVec
outbound_http_requests_total = record {
  name = codes "app_outbound_http_requests_total";
  labels = codes "service" ∷ codes "target" ∷ codes "method" ∷ codes "route" ∷ codes "status" ∷ [];
}

abbrev pub outbound_http_duration : MetricVec
outbound_http_duration = record {
  name = codes "app_outbound_http_request_duration_seconds";
  labels = codes "service" ∷ codes "target" ∷ codes "method" ∷ codes "route" ∷ [];
}

-- The arguments of prometheus.MustRegister.
abbrev pub metrics : List MetricVec
metrics =
    http_requests_total ∷ http_request_duration ∷ http_inflight_requests
    ∷ outbound_http_requests_total ∷ outbound_http_duration ∷ []

pub data Change : Type 0 where
  inc : Change
  dec : Change
  observe : Change

-- The library, over the state of its registry. Nothing is a panic, after which
-- the deferred calls are still made. `update metric values change`
-- stands for `metric.WithLabelValues(values...)` and the call of Inc, Dec or Observe on the series.
pub record Prometheus (R : Type 0) : Type 0 where
  pub must_register : List MetricVec → R → Option R
  pub update : MetricVec → List Text → Change → R → Option R

module _ {R : Type 0} (prometheus : Prometheus R) where
  unfoldable pub init : R → Option R
  init = prometheus.must_register metrics

  -- WrapHTTP before the handler runs, and after it, with the deferred call last.
  unfoldable pub count_start : Text → R → Option R
  count_start service = prometheus.update http_inflight_requests (service ∷ []) inc

  unfoldable pub count_finish : Text → Text → Text → ℕ → R → Option R
  unfolding normalize_route decimal
  count_finish service method path status r₀ =
      let route = normalize_route path in
      bind
        (prometheus.update http_requests_total (service ∷ method ∷ route ∷ decimal status ∷ []) inc
          r₀)
        (λ r₁.
          bind (prometheus.update http_request_duration (service ∷ method ∷ route ∷ []) observe r₁)
            (prometheus.update http_inflight_requests (service ∷ []) dec))

  -- ObserveOutboundHTTP
  unfoldable pub count_outbound : Text → Text → Text → Text → Text → R → Option R
  unfolding normalize_route first_non_empty
  count_outbound service target method route status r₀ =
      let route = normalize_route route in
      let status = first_non_empty (trim_space status ∷ codes "error" ∷ []) in
      bind
        (prometheus.update outbound_http_requests_total
          (service ∷ target ∷ method ∷ route ∷ status ∷ []) inc r₀)
        (prometheus.update outbound_http_duration (service ∷ target ∷ method ∷ route ∷ []) observe)

-- What happens to the monitor of a service, request by request.
pub data Event : Type 0 where
  starts : Event
  finishes : Text → Text → Text → ℕ → Event
  observes : Text → Text → Text → Text → Text → Event

-- The monitor after events, the latest first.
unfoldable pub monitored : List Event → Monitor
unfolding enter leave observe_outbound_http
monitored [] = idle
monitored (starts ∷ events) = enter (monitored events)
monitored (finishes method path correlation_id status ∷ events) =
    leave method path correlation_id status (monitored events)
monitored (observes service target method route status ∷ events) =
    observe_outbound_http service target method route status (monitored events)

module _ {R : Type 0} (prometheus : Prometheus R) (service : Text) where
  unfoldable pub meter : Event → R → Option R
  unfolding count_start count_finish count_outbound
  meter starts = count_start prometheus service
  meter (finishes method path correlation_id status) =
      count_finish prometheus service method path status
  meter (observes s target method route status) =
      count_outbound prometheus s target method route status

  -- The calls of the library for the same events, from the start of the process.
  unfoldable pub metered : List Event → R → Option R
  unfolding init meter
  metered [] r = init prometheus r
  metered (event ∷ events) r = bind (metered events r) (meter event)

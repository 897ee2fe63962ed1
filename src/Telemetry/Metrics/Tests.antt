-- ===== src/Telemetry/Metrics/Tests.antt =====
-- A registry that is a function of its series, and two requests counted in it.
use flo_mimi.Telemetry.{normalize_route, first_non_empty}
use flo_mimi.Text.{trim_space}
use flo_mimi.Telemetry.Metrics.{observe, http_request_duration}
use flo_mimi.Telemetry.Metrics.Agreement.{all_utf8}
use flo_mimi.Prelude.{
  ◌&&◌, true, is_utf8, Text-discrete, ℕ, ◌==◌, [], ◌∷◌, ◌≡◌, refl, arith, List, none, some, Text,
  codes, map, length, if◌then◌else◌,
}
use flo_mimi.Telemetry.Metrics.{
  MetricVec, Prometheus, inc, Event, starts, finishes, observes, monitored, metered,
  http_requests_total,
}
use flo_mimi.Telemetry.Metrics.Agreement.{has_duplicate, IsPrometheus, IsOrderly, Agrees, after}
use flo_mimi.Telemetry.Metrics.Run.{metered-Agrees}

abbrev pub Series : Type 0
Series = Text → List Text → List Text → ℕ

abbrev pub nothing : Series
nothing = λ name labels values. 0

abbrev pub store : Prometheus Series
store = record {
  must_register =
      λ ms r. if has_duplicate (map (λ (m : MetricVec). m.name) ms) then none else some nothing;
  update = λ metric values change r.
      if length values == length metric.labels && all_utf8 values
      then some (after r metric values change)
      else none;
}

pub store-IsPrometheus : IsPrometheus store nothing
store-IsPrometheus = record {
  value = λ r. r;
  registers = λ ms distinct. (nothing, rw distinct refl, λ name labels values. refl);
  updates = λ metric values change r arity valid allowed.
      (after r metric values change, rw (arity, valid) (ground arith), λ name labels others. refl);
}

-- One request is answered while another is open, which then calls the gateway.
abbrev events : List Event
events =
    observes (codes "platform") (codes "event-gateway") (codes "POST") (codes "/events/email")
      (codes "202")
    ∷ finishes (codes "GET") (codes " ") (codes "corr-1") 200
    ∷ starts
    ∷ starts
    ∷ []

-- A call without a status panics, and so does one for the path /%ff.
short :
    store.update http_requests_total (codes "platform" ∷ codes "GET" ∷ codes "/" ∷ []) inc nothing
    ≡ none
unfolding all_utf8 is_utf8
short = refl

strange :
    store.update http_request_duration
      (codes "platform" ∷ codes "GET" ∷ (b'/' ∷ 0x1100ff ∷ []) ∷ [])
      observe
      nothing
    ≡ none
unfolding all_utf8 is_utf8
strange = refl

platform_valid : is_utf8 (codes "platform") ≡ true
unfolding is_utf8
platform_valid = refl

events-IsOrderly : IsOrderly events
unfolding IsOrderly all_utf8 is_utf8 normalize_route first_non_empty trim_space Text-discrete
events-IsOrderly = ((tt, (λ e. ground (arith, e)), refl, refl), refl)

metered-Agrees_example :
    (r : Series) × (metered store (codes "platform") events nothing ≡ some r)
    × Agrees (codes "platform") (store-IsPrometheus.value r) (monitored events)
metered-Agrees_example =
    metered-Agrees store nothing store-IsPrometheus (codes "platform") platform_valid events
      events-IsOrderly

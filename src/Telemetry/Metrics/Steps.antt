-- ===== src/Telemetry/Metrics/Steps.antt =====
-- What a change of a series does to the agreement of the registry and the monitor.
use flo_mimi.Prelude.{
  ℕ, ◌+◌, ◌-◌, Bool, true, [], ◌∷◌, ◌≡◌, refl, ap, ◌∙◌, arith, List, Text, Text-discrete, same,
  if◌then◌else◌,
}
use flo_mimi.Clock.{decimal}
use flo_mimi.Telemetry.{normalize_route, Monitor, enter, count_request, observe_outbound_http}
use flo_mimi.Telemetry.Metrics.Agreement.{
  outbound_status, same_values, changed, tally, is_timed, is_counted, is_outbound, Agrees, after,
}
use flo_mimi.Telemetry.Metrics.{
  MetricVec, http_requests_total, http_request_duration, http_inflight_requests,
  outbound_http_requests_total, outbound_http_duration, Change, inc, dec, observe,
}

same_refl : (s : Text) → same s s ≡ true
same_refl s = ground arith

same_values_refl : (values : List Text) → same_values values values ≡ true
unfolding same_values
same_values_refl [] = refl
same_values_refl (v ∷ values) = ground (arith, same_refl v, same_values_refl values)

after-this :
    (value : Text → List Text → List Text → ℕ) (metric : MetricVec) (values : List Text)
    (change : Change) (others : List Text)
    → after value metric values change metric.name metric.labels others ≡ (
        if same_values others values
        then changed change (value metric.name metric.labels others)
        else value metric.name metric.labels others)
after-this value metric values change others =
    simp (same_refl metric.name, same_values_refl metric.labels)

-- A series that gains one, for one more sample.
counted-after :
    {A : Type 0} (value : Text → List Text → List Text → ℕ) (metric : MetricVec)
    (values others : List Text) (change : Change) (p : A → Bool) (x : A) (xs : List A)
    → ((n : ℕ) → changed change n ≡ n + 1)
    → same_values others values ≡ p x
    → value metric.name metric.labels others ≡ tally p xs
    → after value metric values change metric.name metric.labels others ≡ tally p (x ∷ xs)
unfolding tally
counted-after value metric values others change p x xs gains matches h =
    after-this value metric values change others
    ∙ rw (gains (value metric.name metric.labels others), matches, h) refl

matches_outbound :
    (s target method route status s' target' method' route' status' : Text)
    → same_values
        (s ∷ target ∷ method ∷ route ∷ status ∷ [])
        (s' ∷ target' ∷ method' ∷ route' ∷ status' ∷ [])
      ≡ is_outbound s target (is_counted method route status) (record {
        service = s';
        target = target';
        sample = record { method = method'; route = route'; status = status' };
      })
unfolding same_values
matches_outbound s target method route status s' target' method' route' status' = ground arith

matches_outbound_time :
    (s target method route s' target' method' route' status' : Text)
    → same_values (s ∷ target ∷ method ∷ route ∷ []) (s' ∷ target' ∷ method' ∷ route' ∷ [])
      ≡ is_outbound s target (is_timed method route) (record {
        service = s';
        target = target';
        sample = record { method = method'; route = route'; status = status' };
      })
unfolding same_values
matches_outbound_time s target method route s' target' method' route' status' = ground arith

module _ (service : Text) where
  gauge-after :
      (value : Text → List Text → List Text → ℕ) (change : Change)
      → after value http_inflight_requests
          (service ∷ [])
          change
          http_inflight_requests.name
          http_inflight_requests.labels
          (service ∷ [])
        ≡ changed change
            (value http_inflight_requests.name http_inflight_requests.labels (service ∷ []))
  unfolding same_values
  gauge-after value change =
      after-this value http_inflight_requests (service ∷ []) change (service ∷ [])
      ∙ ground (arith, same_refl service)

  matches_count :
      (method route status method' route' status' : Text)
      → same_values
          (service ∷ method ∷ route ∷ status ∷ [])
          (service ∷ method' ∷ route' ∷ status' ∷ [])
        ≡ is_counted method route status
            (record { method = method'; route = route'; status = status' })
  unfolding same_values
  matches_count method route status method' route' status' = ground (arith, same_refl service)

  matches_time :
      (method route method' route' status' : Text)
      → same_values (service ∷ method ∷ route ∷ []) (service ∷ method' ∷ route' ∷ [])
        ≡ is_timed method route (record { method = method'; route = route'; status = status' })
  unfolding same_values
  matches_time method route method' route' status' = ground (arith, same_refl service)

  module _ (value : Text → List Text → List Text → ℕ) (m : Monitor)
      (a : Agrees service value m) where
    pub start-Agrees :
        Agrees service (after value http_inflight_requests (service ∷ []) inc) (enter m)
    unfolding Text-discrete enter
    start-Agrees = record {
      inflight = gauge-after value inc ∙ ap (λ n. n + 1) a.inflight;
      requests = a.requests;
      durations = a.durations;
      outbound = a.outbound;
      outbound_durations = a.outbound_durations;
    }

    pub finish-Agrees :
        (method path correlation_id : Text) (status : ℕ)
        → Agrees service
            (after
              (after
                (after value http_requests_total
                  (service ∷ method ∷ normalize_route path ∷ decimal status ∷ [])
                  inc)
                http_request_duration
                (service ∷ method ∷ normalize_route path ∷ [])
                observe)
              http_inflight_requests
              (service ∷ [])
              dec)
            (record (count_request method path correlation_id status m) {
              inflight = m.inflight - 1;
            })
    unfolding Text-discrete count_request
    finish-Agrees method path correlation_id status = record {
      inflight =
          gauge-after
            (after
              (after value http_requests_total
                (service ∷ method ∷ normalize_route path ∷ decimal status ∷ []) inc)
              http_request_duration (service ∷ method ∷ normalize_route path ∷ []) observe)
            dec
          ∙ ap (λ n. n - 1) a.inflight;
      requests = λ method' route' status'.
          counted-after value http_requests_total _ _ inc (is_counted method' route' status') _
            m.requests (λ n. refl)
            (matches_count method' route' status' method (normalize_route path) (decimal status))
            (a.requests method' route' status');
      durations = λ method' route'.
          counted-after value http_request_duration _ _ observe (is_timed method' route') _
            m.requests (λ n. refl)
            (matches_time method' route' method (normalize_route path) (decimal status))
            (a.durations method' route');
      outbound = a.outbound;
      outbound_durations = a.outbound_durations;
    }

    pub outbound-Agrees :
        (s target method path status : Text)
        → Agrees service
            (after
              (after value outbound_http_requests_total
                (s ∷ target ∷ method ∷ normalize_route path ∷ outbound_status status ∷ [])
                inc)
              outbound_http_duration
              (s ∷ target ∷ method ∷ normalize_route path ∷ [])
              observe)
            (observe_outbound_http s target method path status m)
    unfolding Text-discrete observe_outbound_http
    outbound-Agrees s target method path status = record {
      inflight = a.inflight;
      requests = a.requests;
      durations = a.durations;
      outbound = λ s' target' method' route' status'.
          counted-after value outbound_http_requests_total _ _ inc
            (is_outbound s' target' (is_counted method' route' status')) _ m.outbound (λ n. refl)
            (matches_outbound s' target' method' route' status' s target method
              (normalize_route path) (outbound_status status))
            (a.outbound s' target' method' route' status');
      outbound_durations = λ s' target' method' route'.
          counted-after value outbound_http_duration _ _ observe
            (is_outbound s' target' (is_timed method' route')) _ m.outbound (λ n. refl)
            (matches_outbound_time s' target' method' route' s target method (normalize_route path)
              (outbound_status status))
            (a.outbound_durations s' target' method' route');
    }

-- ===== src/Telemetry/Metrics/Agreement.antt =====
-- What the registry shows is what the monitor counts.
use flo_mimi.Text.{trim_space}
use flo_mimi.Telemetry.{normalize_route, first_non_empty}
use flo_mimi.Prelude.{
  is_utf8, codes, ℕ, ◌+◌, ◌-◌, Bool, true, false, ◌&&◌, ◌||◌, [], ◌∷◌, ◌≡◌, ◌≢◌, List, some, Text,
  same, map, length, if◌then◌else◌,
}
use flo_mimi.Telemetry.{Sample, OutboundSample, Monitor}
use flo_mimi.Telemetry.Metrics.{
  starts, observes, MetricVec, Change, inc, dec, observe, Prometheus, Event, finishes, monitored,
}

unfoldable pub same_values : List Text → List Text → Bool
same_values [] [] = true
same_values (v ∷ values) (w ∷ others) = same v w && same_values values others
same_values _ _ = false

unfoldable pub all_utf8 : List Text → Bool
unfolding is_utf8
all_utf8 [] = true
all_utf8 (value ∷ values) = is_utf8 value && all_utf8 values

unfoldable pub has_duplicate : List Text → Bool
has_duplicate [] = false
has_duplicate (name ∷ names) = let rest = has_duplicate names in is_among names || rest
  where
    is_among : List Text → Bool
    is_among [] = false
    is_among (other ∷ others) = let rest = is_among others in same name other || rest

-- A series of a metric under a change.
abbrev pub changed : Change → ℕ → ℕ
changed inc n = n + 1
changed dec n = n - 1
changed observe n = n + 1

abbrev pub IsAllowed : Change → ℕ → Type 0
IsAllowed dec n = n ≢ 0
IsAllowed _ n = Unit

-- What the library documents. `value` is what the series with a metric's name, its labels and their
-- values shows: a counter, a gauge that is not negative, or how often a histogram has observed. Metrics
-- of different names can be registered together, and show nothing at first; a call with a value for
-- each label, all of them valid UTF-8, changes one series.
pub record IsPrometheus {R : Type 0} (prometheus : Prometheus R) (fresh : R) : Type 0 where
  pub value : R → Text → List Text → List Text → ℕ
  pub registers :
      (ms : List MetricVec)
      → has_duplicate (map (λ (m : MetricVec). m.name) ms) ≡ false
      → (r : R) × (prometheus.must_register ms fresh ≡ some r)
        × ((name : Text) (labels values : List Text) → value r name labels values ≡ 0)
  pub updates :
      (metric : MetricVec) (values : List Text) (change : Change) (r : R)
      → length values ≡ length metric.labels
      → all_utf8 values ≡ true
      → IsAllowed change (value r metric.name metric.labels values)
      → (r' : R) × (prometheus.update metric values change r ≡ some r')
        × ((name : Text) (labels others : List Text)
            → value r' name labels others ≡ (
                if same name metric.name
                  && (same_values labels metric.labels && same_values others values)
                then changed change (value r name labels others)
                else value r name labels others))

unfoldable pub tally : {A : Type 0} → (A → Bool) → List A → ℕ
tally p [] = 0
tally p (x ∷ xs) = let rest = tally p xs in if p x then rest + 1 else rest

abbrev pub is_timed : Text → Text → Sample → Bool
is_timed method route x = same method x.method && same route x.route

abbrev pub is_counted : Text → Text → Text → Sample → Bool
is_counted method route status x =
    same method x.method && (same route x.route && same status x.status)

abbrev pub is_outbound : Text → Text → (Sample → Bool) → OutboundSample → Bool
is_outbound service target p x = same service x.service && (same target x.target && p x.sample)

-- Each series shows the number of its samples, the gauge the number of open requests.
pub record Agrees (service : Text) (value : Text → List Text → List Text → ℕ) (m : Monitor)
    : Type 0 where
  pub inflight :
      value (codes "app_http_inflight_requests") (codes "service" ∷ []) (service ∷ []) ≡ m.inflight
  pub requests :
      (method route status : Text)
      → value
          (codes "app_http_requests_total")
          (codes "service" ∷ codes "method" ∷ codes "route" ∷ codes "status" ∷ [])
          (service ∷ method ∷ route ∷ status ∷ [])
        ≡ tally (is_counted method route status) m.requests
  pub durations :
      (method route : Text)
      → value
          (codes "app_http_request_duration_seconds")
          (codes "service" ∷ codes "method" ∷ codes "route" ∷ [])
          (service ∷ method ∷ route ∷ [])
        ≡ tally (is_timed method route) m.requests
  pub outbound :
      (s target method route status : Text)
      → value
          (codes "app_outbound_http_requests_total")
          (codes "service" ∷ codes "target" ∷ codes "method" ∷ codes "route" ∷ codes "status" ∷ [])
          (s ∷ target ∷ method ∷ route ∷ status ∷ [])
        ≡ tally (is_outbound s target (is_counted method route status)) m.outbound
  pub outbound_durations :
      (s target method route : Text)
      → value
          (codes "app_outbound_http_request_duration_seconds")
          (codes "service" ∷ codes "target" ∷ codes "method" ∷ codes "route" ∷ [])
          (s ∷ target ∷ method ∷ route ∷ [])
        ≡ tally (is_outbound s target (is_timed method route)) m.outbound

-- The label that an outbound call is counted with.
abbrev pub outbound_status : Text → Text
outbound_status status = first_non_empty (trim_space status ∷ codes "error" ∷ [])

-- No request finishes that has not started, and the texts that become labels are valid UTF-8.
unfoldable pub IsOrderly : List Event → Type 0
unfolding monitored
IsOrderly [] = Unit
IsOrderly (finishes method path correlation_id status ∷ events) =
    IsOrderly events
    × ((monitored events).inflight ≢ 0)
    × (is_utf8 method ≡ true)
    × (is_utf8 (normalize_route path) ≡ true)
IsOrderly (observes service target method route status ∷ events) =
    IsOrderly events
    × (all_utf8 (service ∷ target ∷ method ∷ normalize_route route ∷ outbound_status status ∷ [])
        ≡ true)
IsOrderly (starts ∷ events) = IsOrderly events

-- One change of one series.
abbrev pub after :
    (Text → List Text → List Text → ℕ)
    → MetricVec
    → List Text
    → Change
    → Text
    → List Text
    → List Text
    → ℕ
after value metric values change name labels others =
    if same name metric.name && (same_values labels metric.labels && same_values others values)
    then changed change (value name labels others)
    else value name labels others

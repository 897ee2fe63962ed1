-- ===== src/Telemetry.antt =====
-- platform/internal/telemetry/telemetry.go: what the middleware around every request keeps.
pub mod Interleaving
pub mod Metrics
pub mod Setup
pub mod Tracing
mod Tests
use flo_mimi.Prelude.{
  ℕ, suc, ◌+◌, ◌-◌, Bool, true, false, ◌||◌, not, [], ◌∷◌, ◌++◌, List, Option, none, some, Text,
  codes, same, is_blank, is_utf8, ◌≡◌, refl, leb, ◌==◌, if◌then◌else◌,
}
use flo_mimi.Text.{trim_space}
use flo_mimi.Clock.{decimal, Entropy, bytes, failed, hex}

unfoldable pub normalize_route : Text → Text
normalize_route route =
    let trimmed = trim_space route in if same trimmed [] then codes "/" else trimmed

unfoldable pub first_non_empty : List Text → Text
first_non_empty [] = []
first_non_empty (value ∷ values) =
    if is_blank (trim_space value) then first_non_empty values else value

unfoldable pub generate_id : Text → Entropy → Text
unfolding hex
generate_id prefix (bytes buffer) = prefix ++ (b'-' ∷ hex buffer)
generate_id prefix (failed nanos) = prefix ++ codes "-fallback"

-- The status of a response: that of the last WriteHeader, or the 200 that net/http writes itself.
unfoldable pub recorded_status : List ℕ → ℕ → ℕ
recorded_status [] status = status
recorded_status (written ∷ later) status = recorded_status later written

-- The labels of one observation: those of app_http_requests_total less the service's name, and those
-- of app_outbound_http_requests_total with the service and the target.
pub record Sample : Type 0 where
  pub method : Text
  pub route : Text
  pub status : Text

pub record OutboundSample : Type 0 where
  pub service : Text
  pub target : Text
  pub sample : Sample

pub record Entry : Type 0 where
  pub method : Text
  pub path : Text
  pub status : ℕ
  pub correlation_id : Text

-- The gauge, the counters as the increments made, `routeLastStatus`, and the log.
pub record Monitor : Type 0 where
  pub inflight : ℕ
  pub requests : List Sample
  pub outbound : List OutboundSample
  pub last_status : List (Text × ℕ)
  pub log : List Entry

-- `prev, ok := routeLastStatus[route]`
unfoldable pub last_status_of : Text → List (Text × ℕ) → Option ℕ
last_status_of route [] = none
last_status_of route ((r, status) ∷ rest) =
    if same r route then some status else last_status_of route rest

-- `routeLastStatus[route] = statusInt`
unfoldable pub set_status : Text → ℕ → List (Text × ℕ) → List (Text × ℕ)
set_status route status [] = (route, status) ∷ []
set_status route status ((r, old) ∷ rest) =
    if same r route then (r, status) ∷ rest else (r, old) ∷ set_status route status rest

-- `ok && prev != statusInt`
abbrev pub is_changed : ℕ → Option ℕ → Bool
is_changed status none = false
is_changed status (some previous) = not (previous == status)

unfoldable pub should_log : Text → ℕ → Monitor → Bool
unfolding last_status_of
should_log route status m =
    if leb 500 status then true else is_changed status (last_status_of route m.last_status)

unfoldable pub correlation_of : Text → Entropy → Text
unfolding first_non_empty generate_id
correlation_of header entropy =
    first_non_empty (trim_space header ∷ generate_id (codes "corr") entropy ∷ [])

-- The part of WrapHTTP before the handler runs.
unfoldable pub enter : Monitor → Monitor
enter m = record m { inflight = m.inflight + 1 }

-- What follows the handler, less the deferred decrement of the gauge.
unfoldable pub count_request : Text → Text → Text → ℕ → Monitor → Monitor
unfolding normalize_route should_log set_status decimal
count_request method path correlation_id status m =
    let route = normalize_route path in
    record m {
      requests = record { method = method; route = route; status = decimal status } ∷ m.requests;
      last_status = if leb 500 status then m.last_status else set_status route status m.last_status;
      log =
          if should_log route status m
          then record {
            method = method;
            path = path;
            status = status;
            correlation_id = correlation_id;
          }
            ∷ m.log
          else m.log;
    }

-- The part after the handler, with the deferred decrement. WithLabelValues panics on a label that is not
-- valid UTF-8, and of the labels only the route can be such a text: then the decrement alone is made.
unfoldable pub leave : Text → Text → Text → ℕ → Monitor → Monitor
unfolding count_request
leave method path correlation_id status m =
    if is_utf8 (normalize_route path)
    then record (count_request method path correlation_id status m) { inflight = m.inflight - 1 }
    else record m { inflight = m.inflight - 1 }

pub leave_valid :
    (method path correlation_id : Text) (status : ℕ) (m : Monitor)
    → is_utf8 (normalize_route path) ≡ true
    → leave method path correlation_id status m
      ≡ record (count_request method path correlation_id status m) { inflight = m.inflight - 1 }
unfolding leave
leave_valid method path correlation_id status m valid = rw valid refl

-- WrapHTTP around a handler that is given the correlation ID and acts on a state of the world, which
-- holds the monitor: `on` acts on the monitor in it, and `written` lists the WriteHeader calls behind
-- an answer. How much of its answer a client gets after a panic is not said. The text is the
-- response's header X-Correlation-ID.
module _ {W A : Type 0} (on : (Monitor → Monitor) → W → W) (written : A → List ℕ) where
  unfoldable pub wrap_http : (Text → W → A × W) → Text → Text → Text → Entropy → W → (Text × A) × W
  unfolding correlation_of enter leave recorded_status
  wrap_http next method path header entropy w =
      let correlation_id = correlation_of header entropy in
      let (answer, w') = next correlation_id (on enter w) in
      (
        (correlation_id, answer),
        on (leave method path correlation_id (recorded_status (written answer) 200)) w',
      )

-- ObserveOutboundHTTP
unfoldable pub observe_outbound_http : Text → Text → Text → Text → Text → Monitor → Monitor
unfolding normalize_route first_non_empty
observe_outbound_http service target method route status m = record m {
  outbound =
      record {
        service = service;
        target = target;
        sample = record {
          method = method;
          route = normalize_route route;
          status = first_non_empty (trim_space status ∷ codes "error" ∷ []);
        };
      }
      ∷ m.outbound;
}

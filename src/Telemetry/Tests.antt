-- ===== src/Telemetry/Tests.antt =====
-- Two overlapping requests, of which one fails on the server.
use flo_mimi.Path.{join_paths}
use flo_mimi.Telemetry.Setup.{trace_path}
use flo_mimi.Telemetry.Setup.TracePath.{IsTracesPath, trace_path-IsTracesPath}
use flo_mimi.Prelude.{is_utf8, true, ℕ, [], ◌∷◌, List, ◌≡◌, refl, inr, Text, codes, Text-discrete}
use flo_mimi.Text.{trim_space, has_suffix}
use flo_mimi.Clock.{failed}
use flo_mimi.Telemetry.{
  Monitor, Entry, should_log, last_status_of, set_status, enter, leave, correlation_of,
  normalize_route,
}
use flo_mimi.Telemetry.Interleaving.{Reaches, idle, inflight-Reaches}

-- A request for the view finishes with 200 while another, which ends with 500, is open; then a third.
abbrev overlapping : Monitor
overlapping = leave (codes "GET") (codes "/view") (codes "a") 200 (enter (enter idle))

abbrev failing : Monitor
failing = leave (codes "GET") (codes "/view") (codes "b") 500 overlapping

abbrev overlapping_history : List (Text × ℕ)
overlapping_history = (normalize_route (codes "/view"), 200) ∷ []

view_valid : is_utf8 (normalize_route (codes "/view")) ≡ true
unfolding normalize_route is_utf8 trim_space Text-discrete
view_valid = refl

overlapping-Reaches : Reaches 1 overlapping_history overlapping
overlapping-Reaches =
    Reaches.finishes (codes "GET") (codes "/view") (codes "a") 200 view_valid
      (Reaches.starts (Reaches.starts Reaches.initially))

inflight-Reaches_test : overlapping.inflight ≡ 1
inflight-Reaches_test = inflight-Reaches overlapping-Reaches

abbrev entry : ℕ → Entry
entry status = record {
  method = codes "GET";
  path = codes "/view";
  status = status;
  correlation_id = codes "c";
}

-- A 200 is not logged after a 200, and a 404 is.
logged : (leave (codes "GET") (codes "/view") (codes "c") 404 overlapping).log ≡ entry 404 ∷ []
unfolding leave normalize_route is_utf8 trim_space Text-discrete should_log last_status_of
    set_status enter
logged = refl

corr : correlation_of [] (failed 7) ≡ codes "corr-fallback"
unfolding correlation_of trim_space
corr = refl

-- The collector's address with a prefix in its path.
prefixed : trace_path (codes "/otel") ≡ codes "/otel/v1/traces"
unfolding trace_path trim_space has_suffix join_paths Text-discrete
prefixed = refl

trace_path-IsTracesPath_example : IsTracesPath (trace_path (codes "/otel"))
trace_path-IsTracesPath_example = trace_path-IsTracesPath (codes "/otel") (inr (codes "otel", refl))

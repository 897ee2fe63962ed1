-- ===== src/Platform/Observed.antt =====
-- What a request leaves in the spans, the gauge and the counter of requests.
use mathlib.Core.Path.{subst}
use flo_mimi.Telemetry.{count_request}
use flo_mimi.Prelude.{
  sym, is_utf8, leb, ◌++◌, some, none, true, ℕ, ◌+◌, ◌-◌, false, [], ◌∷◌, List, ◌≡◌, refl, ap, ◌∙◌,
  arith, Text, codes, same,
}
use flo_mimi.Clock.{Entropy, decimal}
use flo_mimi.Server.{Request, Answer, serve}
use flo_mimi.Telemetry.{
  Sample, wrap_http, enter, leave, correlation_of, normalize_route, recorded_status,
  observe_outbound_http,
}
use flo_mimi.Telemetry.Tracing.{Span, span_of, trace_http}
use flo_mimi.Platform.Serving.{serve-keeps}
use flo_mimi.Platform.{
  on_monitor, on_spans, Environment, World, Outside, application_handler, serve_root, serve_matched,
  serve_root-passed,
}

-- The spans that have ended, the gauge and the counter.
abbrev pub Observation : Type 0
Observation = List Span × ℕ × List Sample

abbrev pub observed : {N : Type 0} → World N → Observation
observed w = (w.spans, w.monitor.inflight, w.monitor.requests)

-- What a request adds that was answered with a status.
abbrev pub observing : Request → ℕ → Observation → Observation
observing request status (spans, inflight, requests) = (
  record {
    name = request.method ++ (b' ' ∷ normalize_route request.path);
    attributes = some (record {
      method = request.method;
      route = normalize_route request.path;
      status = status;
      is_error = leb 500 status;
    });
  }
      ∷ spans,
  inflight,
  record { method = request.method; route = normalize_route request.path; status = decimal status }
      ∷ requests,
)

module _ {N : Type 0} (getenv : Environment) (out : Outside N getenv) where
  -- The handler leaves the observation alone: its calls of other services are counted elsewhere.
  serve-Shown :
      (o : Observation) (request : Request) (w : World N)
      → observed w ≡ o
      → observed (serve (application_handler getenv out) request w).1 ≡ o
  unfolding observe_outbound_http
  serve-Shown o =
      serve-keeps getenv out (λ w. observed w ≡ o) (λ w s h. h) (λ w n h. h)
        (λ target method route status w h. h)

  abbrev handler : Request → Text → World N → Answer × World N
  handler request correlation_id =
      serve (application_handler getenv out)
        (record request { context = record { correlation_id = correlation_id } })

  -- Around a handler that leaves them alone, the middleware adds one span and one count with the
  -- status of the answer, and takes back its count of the gauge.
  around-observed :
      (header : Text) (request : Request) (w : World N) (entropy : Entropy)
      → is_utf8 (normalize_route request.path) ≡ true
      → observed (handler request (correlation_of header entropy) (on_monitor enter w)).1
        ≡ (w.spans, w.monitor.inflight + 1, w.monitor.requests)
      → observed
          (trace_http on_spans
            (λ (r : Text × Answer). r.1.status ∷ [])
            (wrap_http on_monitor
              (λ (a : Answer). a.status ∷ [])
              (handler request)
              request.method
              request.path
              header
              entropy)
            request.method
            request.path
            w).1
        ≡ observing request
            (handler request (correlation_of header entropy) (on_monitor enter w)).0.status
            (observed w)
  unfolding wrap_http trace_http leave count_request recorded_status span_of
  around-observed header request w entropy valid h = rw valid (
      let status =
        (handler request (correlation_of header entropy) (on_monitor enter w)).0.status in
      ap (λ (o : Observation). observing request status (o.0, o.1 - 1, o.2)) h
      ∙ ap (λ n. observing request status (w.spans, n, w.monitor.requests)) (omega arith))

  matched-observed :
      (header : Text) (request : Request) (w : World N)
      → same request.matched (codes "/metrics") ≡ false
      → is_utf8 (normalize_route request.path) ≡ true
      → observed (serve_matched getenv out header request w).1
        ≡ observing request (serve_matched getenv out header request w).0.1.status (observed w)
  unfolding serve_matched enter
  matched-observed header request w h valid = rw h (
      around-observed header request w (out.entropy w.net) valid (
        serve-Shown (w.spans, w.monitor.inflight + 1, w.monitor.requests)
          (record request {
            context = record { correlation_id = correlation_of header (out.entropy w.net) };
          })
          (on_monitor enter w) refl))

  -- A request that ServeMux neither redirects nor finds to be for the metrics, and whose route is valid
  -- UTF-8, ends one span and is counted once, both with the status of its answer, the span being an
  -- error from 500 on, and the gauge of the open requests is what it was.
  pub serve_root-observed :
      (header : Text) (request : Request) (w : World N)
      → out.redirect request ≡ none
      → same request.matched (codes "/metrics") ≡ false
      → is_utf8 (normalize_route request.path) ≡ true
      → observed (serve_root getenv out header request w).1
        ≡ observing request (serve_root getenv out header request w).0.1.status (observed w)
  serve_root-observed header request w passed h valid =
      subst
        (λ (r : (Text × Answer) × World N).
          observed r.1 ≡ observing request r.0.1.status (observed w))
        (sym (serve_root-passed getenv out header request w passed))
        (matched-observed header request w h valid)

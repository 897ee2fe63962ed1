-- ===== src/Telemetry/Tracing.antt =====
-- `TraceHTTP`: the span of a request.
use flo_mimi.Prelude.{
  Option, none, some, is_utf8, if◌then◌else◌, ℕ, Bool, ◌∷◌, ◌++◌, List, Text, leb,
}
use flo_mimi.Telemetry.{normalize_route, recorded_status}

-- The attributes of a span, and whether its code is an error or is not set.
pub record Attributes : Type 0 where
  pub method : Text
  pub route : Text
  pub status : ℕ
  pub is_error : Bool

-- A span that has ended. One that a panic ended has no attributes.
pub record Span : Type 0 where
  pub name : Text
  pub attributes : Option Attributes

-- The handler behind TraceHTTP is WrapHTTP, which panics on a route that is not valid UTF-8.
unfoldable pub span_of : Text → Text → ℕ → Span
unfolding normalize_route
span_of method path status =
    let route = normalize_route path in
    record {
      name = method ++ (b' ' ∷ route);
      attributes =
          if is_utf8 route
          then some (record {
            method = method;
            route = route;
            status = status;
            is_error = leb 500 status;
          })
          else none;
    }

-- TraceHTTP around a handler that acts on a state of the world, which holds the spans: `on` acts on
-- the spans in it, and `written` lists the WriteHeader calls behind an answer.
module _ {W A : Type 0} (on : (List Span → List Span) → W → W) (written : A → List ℕ) where
  unfoldable pub trace_http : (W → A × W) → Text → Text → W → A × W
  unfolding span_of recorded_status
  trace_http next method path w =
      let (answer, w') = next w in
      (answer, on (λ spans. span_of method path (recorded_status (written answer) 200) ∷ spans) w')

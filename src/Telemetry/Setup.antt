-- ===== src/Telemetry/Setup.antt =====
-- `Setup`: where traces are exported to.
pub mod TracePath
use flo_mimi.Prelude.{
  true, false, ◌||◌, [], ◌∷◌, ◌++◌, List, Option, none, some, Text, codes, same, if◌then◌else◌,
  Error, Result, ok, err,
}
use flo_mimi.Text.{trim_space, has_suffix}
use flo_mimi.Path.{join_paths}

-- What the set-up uses of net/url's URL.
pub record Url : Type 0 where
  pub scheme : Text
  pub host : Text
  pub path : Text

-- The options that the set-up gives to the exporter.
pub data ExporterOption : Type 0 where
  with_endpoint : Text → ExporterOption
  with_url_path : Text → ExporterOption
  with_insecure : ExporterOption

unfoldable pub trace_path : Text → Text
unfolding trim_space has_suffix join_paths
trace_path path =
    let trimmed = trim_space path in
    if same trimmed [] || same trimmed (codes "/")
    then codes "/v1/traces"
    else if has_suffix (codes "/v1/traces") trimmed
    then trimmed
    else join_paths (trimmed ∷ codes "/v1/traces" ∷ [])

unfoldable pub url_options : Url → List ExporterOption
unfolding trace_path
url_options url =
    with_endpoint url.host
    ∷ with_url_path (trace_path url.path)
    ∷ (if same url.scheme (codes "https") then [] else with_insecure ∷ [])

unfoldable pub bare_options : Text → List ExporterOption
bare_options endpoint = with_endpoint endpoint ∷ with_insecure ∷ []

-- `parse_url` is url.Parse, which gives nothing for its error.
unfoldable pub exporter_options : (Text → Option Url) → Text → List ExporterOption
unfolding url_options bare_options
exporter_options parse_url endpoint = elim (parse_url endpoint) [
  | none ↦ bare_options endpoint
  | some url ↦ if same url.host [] then bare_options endpoint else url_options url
]

-- The exporter and the description of the service, each with its error, if any.
pub record Sdk : Type 0 where
  pub parse_url : Text → Option Url
  pub new_exporter : List ExporterOption → Option Error
  pub merge_resource : Text → Text → Option Error

-- The function that `Setup` returns: to do nothing, or to shut the provider of the spans down.
pub data Shutdown : Type 0 where
  nothing : Shutdown
  provider : Text → Text → List ExporterOption → Shutdown

unfoldable pub setup : Sdk → (Text → Text) → Text → Text → Result Shutdown
unfolding trim_space exporter_options
setup sdk getenv service_name environment =
    let endpoint = trim_space (getenv (codes "OTEL_EXPORTER_OTLP_ENDPOINT")) in
    let options = exporter_options sdk.parse_url endpoint in
    if same endpoint [] then ok nothing else elim (sdk.new_exporter options) [
      | some e ↦ err e
      | none ↦ elim (sdk.merge_resource service_name environment) [
        | some e ↦ err e
        | none ↦ ok (provider service_name environment options)
      ]
    ]

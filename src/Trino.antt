-- ===== src/Trino.antt =====
-- platform/internal/adapters/analytics/trino_repository.go: the analytics of the serving store,
-- queried from Trino page by page.
pub mod Pages
pub mod Termination
mod Tests
use flo_mimi.Prelude.{
  ℕ, zero, suc, Bool, true, false, [], ◌∷◌, ◌++◌, List, Option, none, some, Text, codes, same, leb,
  Error, Result, ok, err, message, wrap, Action, pure, raise, wrapped, continue, ◌>>=◌,
  if◌then◌else◌,
}
use flo_mimi.Prelude.Int.{ℤ, pos}
use flo_mimi.Text.{trim_space}
use flo_mimi.Clock.{decimal}
use flo_mimi.Number.{format_int, parse_int}
use flo_mimi.Value.{Value, float64, int, int64, number, string}
use flo_mimi.Content.Metadata.{truncate}
use mathlib.Core.Option
use flo_mimi.Bootstrap.{Analytics, PipelineStage}

pub record TrinoResponse : Type 0 where
  pub rows : List (List Value)
  pub next_uri : Text
  pub error : Option Text

-- http.MethodPost with the statement as the body, and http.MethodGet.
pub data Method : Type 0 where
  post : Text → Method
  get : Method

pub record Request : Type 0 where
  pub method : Method
  pub url : Text
  pub user : Text
  pub source : Text

-- The status code of a response, the first 4096 bytes of its body as a text, and io.ReadAll of it.
pub record Reply : Type 0 where
  pub status : ℕ
  pub excerpt : Text
  pub body : Result (List ℕ)

-- net/http over the state of the world, and encoding/json on a body. `build` is the verdict of
-- `http.NewRequestWithContext` on a URL.
pub record Transport (W : Type 0) : Type 0 where
  pub build : Text → Result (Unit {0})
  pub send : Request → Action W Reply
  pub unmarshal : List ℕ → Result TrinoResponse

pub record TrinoRepository : Type 0 where
  pub base_url : Text
  pub user : Text

abbrev pub or_default : Text → Text → Text
or_default text default = if same text [] then default else text

unfoldable pub new_trino_repository : Text → Text → Text → TrinoRepository
new_trino_repository host port user = record {
  base_url =
      codes "http://"
      ++ (or_default host (codes "trino") ++ (b':' ∷ or_default port (codes "8080")));
  user = or_default user (codes "platform");
}

unfoldable pub int64_from_number : Value → ℤ
unfolding truncate parse_int
int64_from_number (float64 f) = truncate f
int64_from_number (int64 n) = n
int64_from_number (int n) = n
int64_from_number (number text) = elim (parse_int text) [ none ↦ pos 0 | some n ↦ n ]
int64_from_number (string text) = elim (parse_int text) [ none ↦ pos 0 | some n ↦ n ]
int64_from_number _ = pos 0

abbrev pub statement : Text
statement =
    codes
      "\n\t\tselect\n\t\t\tcoalesce(sum(open_events), 0) as open_events,\n\t\t\tcoalesce(sum(click_events), 0) as click_events,\n\t\t\tcoalesce(sum(delivered_events), 0) as delivered_events\n\t\tfrom clickhouse.serving.campaign_performance\n\t"

-- What is done with a page: its error, if any, its rows, if it is the last, or the next page.
abbrev pub on_page : {X : Type 0} → Option Text → Bool → (Text → X) → X → X → X
on_page (some text) is_last refused last rest = refused text
on_page none true refused last rest = last
on_page none false refused last rest = rest

module _ {W : Type 0} (transport : Transport W) (r : TrinoRepository) where
  abbrev pub trino_status : Reply → Error
  trino_status reply =
      message (
        codes "trino status " ++ (decimal reply.status ++ (codes ": " ++ trim_space reply.excerpt)))

  -- TrinoRepository.do
  unfoldable pub execute : Request → Action W TrinoResponse
  execute request = do
    reply ← λ w. wrapped (codes "execute trino request") (transport.send request w)
    if leb 400 reply.status then raise (trino_status reply) else do
      body ← λ w. wrapped (codes "read trino response") (reply.body, w)
      λ w. wrapped (codes "decode trino response") (transport.unmarshal body, w)

  abbrev pub request_of : Method → Text → Request
  request_of method url = record {
    method = method;
    url = url;
    user = r.user;
    source = codes "platform";
  }

  unfoldable pub first_page : Text → Action W TrinoResponse
  unfolding execute
  first_page sql = do
    _ ← λ w.
        wrapped (codes "build trino request")
          (transport.build (r.base_url ++ codes "/v1/statement"), w)
    execute (request_of (post (trim_space sql)) (r.base_url ++ codes "/v1/statement"))

  unfoldable pub next_page : Text → Action W TrinoResponse
  unfolding execute
  next_page uri = do
    _ ← λ w. wrapped (codes "build trino next request") (transport.build uri, w)
    execute (request_of get uri)

  abbrev pub query_failed : Text → Error
  query_failed text = message (codes "trino query failed: " ++ text)

  abbrev pub resume :
      (TrinoResponse → W → Option (Result (List (List Value)) × W))
      → Result TrinoResponse × W
      → Option (Result (List (List Value)) × W)
  resume rest (ok page, w) = rest page w
  resume rest (err e, w) = some (err e, w)

  -- The loop over the pages, from one that was read; `none` when the fuel runs out.
  unfoldable pub follow :
      ℕ → List (List Value) → TrinoResponse → W → Option (Result (List (List Value)) × W)
  unfolding next_page
  follow zero rows page w = none
  follow (suc fuel) rows page w =
      on_page page.error (same page.next_uri []) (λ text. some (err (query_failed text), w))
        (some (ok (rows ++ page.rows), w))
        (resume (follow fuel (rows ++ page.rows)) (next_page page.next_uri w))

  unfoldable pub query : ℕ → Text → W → Option (Result (List (List Value)) × W)
  unfolding first_page follow
  query fuel sql w = resume (follow fuel []) (first_page sql w)

abbrev pub counts : List (List Value) → ℤ × ℤ × ℤ
counts ((opens ∷ clicks ∷ delivered ∷ _) ∷ _) =
    (int64_from_number opens, int64_from_number clicks, int64_from_number delivered)
counts _ = (pos 0, pos 0, pos 0)

unfoldable pub describe : ℤ → ℤ → ℤ → Text
unfolding format_int
describe opens clicks delivered =
    codes "Open "
    ++ (format_int opens
        ++ (codes " • Click "
            ++ (format_int clicks ++ (codes " • Delivered " ++ format_int delivered))))

-- The analytics that a first row of counts gives.
unfoldable pub analytics_of : ℤ × ℤ × ℤ → Analytics
unfolding describe
analytics_of (opens, clicks, delivered) = record {
  headline = codes "Real-time Analytics";
  description = describe opens clicks delivered;
  pipelines =
      (record {
        id = codes "realtime";
        title = codes "Real-time Analytics via Trino";
        description = codes "Serving aggregates read from ClickHouse through Trino";
        status = codes "ok";
      })
      ∷ [];
  signals = [];
}

module _ {W : Type 0} where
  abbrev pub summarise : Result (List (List Value)) × W → Result Analytics × W
  summarise (ok rows, w) = (ok (analytics_of (counts rows)), w)
  summarise (err e, w) = (err e, w)

  unfoldable pub load_analytics :
      Transport W → TrinoRepository → ℕ → W → Option (Result Analytics × W)
  unfolding query
  load_analytics transport r fuel w = Option.map summarise (query transport r fuel statement w)

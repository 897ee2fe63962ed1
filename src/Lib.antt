-- ===== src/Lib.antt =====
-- flo-mimi: the operator platform, the Go program under platform/.
--
-- A browser posts an interaction command. The HTTP layer (platform/internal/http) hands it to the
-- interaction service (platform/internal/application/interactions), which completes it, applies it
-- to the appdb repository (platform/internal/adapters/content) and publishes it through the event
-- gateway adapter (platform/internal/adapters/gateway). It reads its view from the bootstrap service
-- (platform/internal/application/bootstrap), which joins the view of the repository with the analytics
-- that the Trino adapter (platform/internal/adapters/analytics) queries. The middleware of
-- platform/internal/telemetry stands around every request, and platform/cmd/server/main.go puts the
-- parts together.
--
-- - Prelude and its children: shared names, texts, tests, results, lists, sorting by a key and signed
--   integers.
-- - Text: the functions of Go's strings and unicode packages that the program calls. A Go string is
--   the list of its runes, where a byte that is not part of the encoding of a rune stands as a number
--   above all runes.
-- - Clock: time.Time in UTC with the two formats that the program prints, and crypto/rand with the
--   identifiers made from it (newID).
-- - Value: the values of an `any`, as encoding/json decodes them. A float64 is exact: a sign, a
--   mantissa and a power of two.
-- - Slug: slugify, which application/interactions, adapters/gateway and adapters/content each carry.
-- - Command: domain/interactions/command.go and the ports EventSink and MutationStore, as records of
--   actions on a state of the world.
-- - Interactions: application/interactions/service.go. `record_interaction` is Service.Record; what a
--   call reads of the clock and of the random source is its argument `Ambient`.
-- - Gateway: adapters/gateway/event_gateway.go. net/http and the metrics are the parameter `Client`.
--   Gateway.Requests and Interactions.Posted put a log of the requests beside the state.
--   Gateway.Contract has the two events of event-gateway/app/main.py, which take its payloads.
-- - Content: adapters/content/repository.go, less Load (in Bootstrap). Content.Schema has the tables
--   of appdb/init/02_platform_bootstrap.sql that the repository writes, and the SQL statements of
--   repository.go as functions on them, with the keys and the range of audience_count that the server
--   checks; display orders are taken to be far below the range of theirs. What the driver and
--   the server do beyond that is the parameter `Driver`: the error that they report for a call, if
--   any, and the server's clock. A call that is answered with an error has changed no table; the
--   error of RowsAffected, which the driver never returns, is left out.
--   lookupDisplayOrder and its Tx twin are one definition, as are the two of nextDisplayOrder.
--   Content.Connection has NewAppDBRepository and Close as the list of the calls made.
-- - Content.View: of appdb/init/03_platform_bootstrap_views.sql, how the view platform_bootstrap shows
--   the campaigns. The functions of the database that print numbers are the parameter `Formats`.
-- - Content.Race: createCampaign and scheduleCampaign of adapters/content/repository.go as machines
--   that make one call at a time, so that the calls of several commands interleave: `Steps`.
--   Content.Race.Solo compares one machine with the code. Elsewhere one command runs at a time.
-- - Bootstrap: domain/bootstrap/models.go; Bootstrap.Load is Load of adapters/content/repository.go,
--   with the row and the decoders of its columns as the parameter `Source`; Bootstrap.Service is
--   application/bootstrap/service.go.
-- - Number: `%d` of fmt and strconv.ParseInt.
-- - Trino: adapters/analytics/trino_repository.go. net/http and encoding/json are the parameter
--   `Transport`.
-- - Path: Go's path.Clean, path.Join and the strings.TrimPrefix that follows the first.
-- - Server: platform/internal/http/server.go, with the standard library's file server and
--   decoder in the record `Handler`. A body that is an error stands for its text. http.ServeMux compares
--   its patterns with a path that is unescaped element by element: the field `matched` of a request.
-- - Telemetry: platform/internal/telemetry/telemetry.go: the state of the middleware, `wrap_http` made
--   of the parts before and after the handler, and overlapping requests as steps (`Reaches`).
--   Telemetry.Setup has Setup, with net/url and the exporter as the parameter `Sdk`;
--   Telemetry.Tracing has TraceHTTP. Telemetry.Metrics has the metrics, their registration and the
--   calls that count in them, with the library as the parameter `Prometheus`. What it documents is
--   `IsPrometheus`: a label that is not valid UTF-8 is a panic, and a count is a natural number, which
--   the library's float64 holds exactly below 2 ^ 53.
-- - Platform: platform/cmd/server/main.go: `serve_root` is the root handler with the parts of the
--   program in it, over one state of the world, `run` a list of requests, and `observed` what the
--   middleware has seen. What they call, and the fact that the query of the analytics ends, is the
--   parameter `Outside`. Platform.Shown joins a posted brief, the SQL view and the bootstrap service.
--   The requests that ServeMux answers itself, those with a path that is not clean, are the field
--   `redirect` of `Outside`. Platform.Life is the start and the end of the process, as the list of
--   what it does; its branch for http.ErrServerClosed is modelled as it stands, although this program,
--   which never shuts the server down, does not take it.
--
-- Every loop but one of these parts is over a list, and stands as a recursion on it. `decimal` recurs
-- on fuel: the number's successor, which exceeds the count of its digits.
--
-- The loop over the pages of a Trino query runs as long as the server names a next page, so it recurs
-- on fuel, and out of fuel it gives no result at all: a page costs one unit, as Trino.Pages shows.
--
-- Not modelled: json.Marshal of an event's payload, which cannot fail on these values; the trace
-- headers that OpenTelemetry adds to a request; the timeouts of the clients and of the server, and the
-- pool of the database connection; a COMMIT whose outcome is lost with the connection (an error of it
-- counts as a rollback); what a client is sent of an answer after a panic; the measured durations, and
-- the JSON lines of the logger; the context that is cancelled when a client leaves; subscribers that
-- are added at once; the embedded assets of platform/web/embed.go; the other columns of the SQL view,
-- and what the event gateway does
-- with an event. The web client, the analytics jobs and the deployment are not Go.
pub mod Prelude
pub mod Text
pub mod Slug
pub mod Value
pub mod Clock
pub mod Command
pub mod Interactions
pub mod Gateway
pub mod Content
pub mod Bootstrap
pub mod Number
pub mod Trino
pub mod Server
pub mod Telemetry
pub mod Path
pub mod Platform

-- ===== src/Gateway.antt =====
-- platform/internal/adapters/gateway/event_gateway.go: an interaction as events for the event
-- gateway, over HTTP.
pub mod Routes
pub mod Channels
pub mod Contract
pub mod Requests
pub mod Effects
mod Tests
use flo_mimi.Prelude.{
  ℕ, Bool, true, false, ◌&&◌, ◌||◌, not, [], ◌∷◌, ◌++◌, List, none, some, Text, codes, same,
  is_blank, leb, ◌==◌, continue, if◌then◌else◌, Action, Error, Result, ok, err, pure, raise,
  wrapped, message, wrap, ◌>>=◌, ◌>>◌,
}
use flo_mimi.Text.{trim_space, trim_right, has_prefix}
use flo_mimi.Slug
use flo_mimi.Value.{Value, string, object, null, Metadata, Fields, done, field}
use flo_mimi.Clock.{decimal}
use flo_mimi.Command.{Command, Context, PublishResult, EventSink}

unfoldable pub slugify : Text → Text
unfolding Slug.slugify
slugify value = Slug.slugify value

unfoldable pub first_non_empty : List Text → Text
first_non_empty [] = []
first_non_empty (value ∷ values) =
    if is_blank (trim_space value) then first_non_empty values else value

unfoldable pub route_path : Text → Text
route_path route =
    let trimmed = trim_space route in
    if same trimmed [] || same trimmed (codes "/")
    then codes "/dashboard"
    else if has_prefix (codes "/") trimmed
    then trimmed
    else codes "/" ++ trimmed

unfoldable pub should_publish_analytics : Command → Bool
should_publish_analytics command = not (same command.event_kind (codes "email"))

unfoldable pub should_publish_email : Command → Bool
should_publish_email command =
    if same command.event_kind (codes "email") || same command.event_kind (codes "both")
    then true
    else if same command.event_kind (codes "analytics")
    then false
    else same command.subject_type (codes "campaign") || not (same command.campaign_id [])

-- A nil map is marshalled as null.
abbrev pub metadata_value : Metadata → Value
metadata_value none = null
metadata_value (some m) = object m

unfoldable pub analytics_payload : Command → Value
unfolding slugify route_path
analytics_payload c = object (
    field (codes "session_id") (string c.session_id) (
      field (codes "user_id") (string c.user_id) (
        field (codes "event_name") (string (slugify c.surface ++ (b'.' ∷ slugify c.action))) (
          field (codes "page_url") (string (route_path c.route)) (
            field (codes "payload")
              (object (
                field (codes "surface") (string c.surface) (
                  field (codes "action") (string c.action) (
                    field (codes "subject_type") (string c.subject_type) (
                      field (codes "subject_id") (string c.subject_id) (
                        field (codes "campaign_id") (string c.campaign_id)
                          (field (codes "metadata") (metadata_value c.metadata) done)))))))
              done)))))

unfoldable pub email_payload : Command → Value
unfolding slugify route_path first_non_empty
email_payload c = object (
    field (codes "campaign_id")
      (string (first_non_empty (c.campaign_id ∷ c.subject_id ∷ codes "platform-ui" ∷ [])))
      (field (codes "recipient_id") (string c.recipient_id) (
        field (codes "event_type") (string (codes "ui_" ++ slugify c.action)) (
          field (codes "payload")
            (object (
              field (codes "route") (string (route_path c.route)) (
                field (codes "surface") (string c.surface) (
                  field (codes "subject_type") (string c.subject_type) (
                    field (codes "subject_id") (string c.subject_id)
                      (field (codes "metadata") (metadata_value c.metadata) done))))))
            done))))

pub record Request : Type 0 where
  pub method : Text
  pub url : Text
  pub headers : List (Text × Text)
  pub body : Value

-- What `client.Do` gives: an error, or a response with its status code, its status line and the
-- first 4096 bytes of its body.
pub data Reply : Type 0 where
  failed : Error → Reply
  answered : ℕ → Text → Text → Reply

-- net/http and the metrics, over the state of the world that they act on. `build` is the verdict of
-- `http.NewRequestWithContext` on a URL. `observe` is telemetry.ObserveOutboundHTTP with the route
-- and the status label.
pub record Client (W : Type 0) : Type 0 where
  pub build : Text → Result (Unit {0})
  pub send : Request → W → Reply × W
  pub observe : Text → Text → W → W

-- telemetry.InjectHeaders, as far as the correlation ID goes.
unfoldable pub inject_headers : Context → List (Text × Text) → List (Text × Text)
inject_headers ctx headers =
    if is_blank ctx.correlation_id
    then headers
    else headers ++ ((codes "X-Correlation-ID", ctx.correlation_id) ∷ [])

module _ {W : Type 0} (client : Client W) where
  unfoldable pub receive : Text → Reply × W → Result (Unit {0}) × W
  receive path (failed e, w) =
      (err (wrap (codes "execute request") e), client.observe path (codes "error") w)
  receive path (answered code status body, w) =
      let w' = client.observe path (decimal code) w in
      if leb 400 code
      then (
        err (message (codes "unexpected status " ++ (status ++ (codes ": " ++ trim_space body)))),
        w',
      )
      else (ok tt, w')

  unfoldable pub dispatch : Text → Request → Result (Unit {0}) → Action W (Unit {0})
  unfolding receive
  dispatch path request (err e) w = (err (wrap (codes "build request") e), w)
  dispatch path request (ok _) w = receive path (client.send request w)

  unfoldable pub post_json : Text → Context → Text → Value → Action W (Unit {0})
  unfolding dispatch inject_headers
  post_json base_url ctx path body =
      dispatch path
        (record {
          method = codes "POST";
          url = base_url ++ path;
          headers = inject_headers ctx ((codes "Content-Type", codes "application/json") ∷ []);
          body = body;
        })
        (client.build (base_url ++ path))

  -- One event: the post, its error in context, and the channel added to `result.Published`.
  unfoldable pub announce : Text → Text → List Text → Action W (Unit {0}) → Action W (List Text)
  announce what channel published post w =
      continue (λ _. pure (published ++ (channel ∷ []))) (wrapped what (post w))

  unfoldable pub publish_analytics : Text → Context → Command → List Text → Action W (List Text)
  unfolding announce
  publish_analytics base_url ctx c published =
      if should_publish_analytics c
      then announce (codes "publish analytics event") (codes "analytics") published
          (post_json base_url ctx (codes "/events/analytics") (analytics_payload c))
      else pure published

  unfoldable pub publish_email : Text → Context → Command → List Text → Action W (List Text)
  unfolding announce
  publish_email base_url ctx c published =
      if should_publish_email c
      then announce (codes "publish campaign event") (codes "email") published
          (post_json base_url ctx (codes "/events/email") (email_payload c))
      else pure published

  unfoldable pub publish_interaction : Text → Context → Command → Action W PublishResult
  publish_interaction base_url ctx c = do
    announced ← publish_analytics base_url ctx c []
    published ← publish_email base_url ctx c announced
    pure (record { published = published })

  -- NewHTTPEventGateway trims the slashes at the end of the base URL.
  unfoldable pub new_http_event_gateway : Text → EventSink W
  new_http_event_gateway base_url = record {
    publish_interaction = publish_interaction (trim_right (λ c. c == b'/') base_url);
  }
